-- ===== src/Wheel/History.antt =====
-- The movement tasks of a run of the loop: whoever asks, releases and posts, in any order.
use wanted.Base.{ℕ, ◌≡◌, Bool, Option, none, some, List, [], ◌∷◌, get_elem?, All, Name}
use wanted.Wheel.Owner.{Owner}
use wanted.Wheel.Arbiter.{
  token_for, MovementToken, Wheel, acquire, release, release_owner, note, post, open_tick,
}

-- What the code does with the wheel in a run. A token is one of those handed out so far, counted from
-- the last; it may be a stale one.
pub data Call : Type 0 where
  opens : Bool → Bool → Name → Call
  acquires : Owner → Name → Option ℕ → Call
  releases : ℕ → Call
  releases_owner : Owner → Call
  looks_up : Owner → Call
  notes : Owner → Call
  posts : Bool → ℕ → Call

-- A movement task on the wire: in which tick, and whose.
pub record Posted : Type 0 where
  pub tick : ℕ
  pub owner : Owner

pub record Day : Type 0 where
  pub wheel : Wheel
  pub issued : List MovementToken
  pub tasks : List Posted

abbrev pub with_token : Option MovementToken → List MovementToken → List MovementToken
with_token none ts = ts
with_token (some t) ts = t ∷ ts

abbrev pub with_task : ℕ → Option Owner → List Posted → List Posted
with_task tick none ps = ps
with_task tick (some o) ps = record { tick = tick; owner = o } ∷ ps

abbrev pub took : Day → Wheel × Option MovementToken → Day
took d (w, t) = record d { wheel = w; issued = with_token t d.issued }

unfoldable pub step : Call → Day → Day
step (Call.opens controls active reason) d = took d (open_tick controls active reason d.wheel)
step (Call.acquires owner reason lease) d = took d (acquire owner reason lease d.wheel)
step (Call.releases n) d = record d { wheel = (release (get_elem? d.issued n) d.wheel).0 }
step (Call.releases_owner owner) d = record d { wheel = (release_owner owner d.wheel).0 }
step (Call.looks_up owner) d = took d (d.wheel, token_for owner d.wheel)
step (Call.notes owner) d = record d { wheel = note owner d.wheel }
step (Call.posts passes n) d =
    let (w, sent) = post passes (get_elem? d.issued n) d.wheel in
    record d { wheel = w; tasks = with_task d.wheel.tick sent d.tasks }

unfoldable pub run : List Call → Day → Day
run [] d = d
run (c ∷ cs) d = run cs (step c d)

-- Any two movement tasks of one tick are of one layer.
abbrev pub OnePerTick : List Posted → Type 0
OnePerTick [] = Unit
OnePerTick (p ∷ ps) = All (λ q. q.tick ≡ p.tick → q.owner ≡ p.owner) ps × OnePerTick ps

-- Nothing has been posted in the tick but by this owner.
abbrev pub OnlyBy : ℕ → Owner → List Posted → Type 0
OnlyBy tick owner ps = All (λ p. p.tick ≡ tick → p.owner ≡ owner) ps
