-- ===== src/Wheel/Fair.antt =====
-- The latch of `MovementWheel`, harness/wasted_harness/behavior/vehicle.py, over the calls of one tick.
use wanted.Base.{
  ℕ, suc, ◌≤◌, ◌≡◌, refl, sym, ap, ◌∙◌, subst, true, false, Option, none, some, List, ◌∷◌, All,
  All-map, OnSome, arith,
}
use wanted.Wheel.Owner.{Owner, same_owner, same_owner→eq}
use wanted.Wheel.Arbiter.{MovementToken, Wheel, other_posted}
use wanted.Wheel.History.{Posted, OnePerTick, OnlyBy}

-- The tokens issued have numbers that are used up, and one with the holder's number is the holder's.
-- A tick with a task on the wire is latched for its owner, who is the holder if there is one.
pub record Fair (holder : Option MovementToken) (next_id tick : ℕ) (posted_tick : Option ℕ)
    (posted_owner : Option Owner) (issued : List MovementToken) (tasks : List Posted) : Type 0 where
  pub numbered : All (λ t. t.id ≤ next_id) issued
  pub held_number : OnSome (λ h. h.id ≤ next_id) holder
  pub held_owner : OnSome (λ h. All (λ t. t.id ≡ h.id → t.owner ≡ h.owner) issued) holder
  pub past : All (λ p. p.tick ≤ tick) tasks
  pub latched :
      All (λ p. p.tick ≡ tick → (posted_tick ≡ some tick) × (posted_owner ≡ some p.owner)) tasks
  pub held_poster : OnSome (λ h. OnlyBy tick h.owner tasks) holder
  pub one : OnePerTick tasks

abbrev pub IsFair : Wheel → List MovementToken → List Posted → Type 0
IsFair w issued tasks = Fair w.holder w.next_id w.tick w.posted_tick w.posted_owner issued tasks

OnSome-any :
    {P : MovementToken → Type 0} (h : Option MovementToken)
    → ((t : MovementToken) → P t)
    → OnSome P h
OnSome-any none f = tt
OnSome-any (some t) f = f t

module _ {n tick : ℕ} {at : Option ℕ} {by : Option Owner} {issued : List MovementToken}
    {tasks : List Posted} where
  pub Fair-unheld :
      (h : Option MovementToken)
      → Fair h n tick at by issued tasks
      → Fair none n tick at by issued tasks
  Fair-unheld h k = record {
    numbered = k.numbered;
    held_number = tt;
    held_owner = tt;
    past = k.past;
    latched = k.latched;
    held_poster = tt;
    one = k.one;
  }

  pub Fair-later :
      (h : Option MovementToken)
      → Fair h n tick at by issued tasks
      → Fair h n (suc tick) at by issued tasks
  Fair-later h k = record {
    numbered = k.numbered;
    held_number = k.held_number;
    held_owner = k.held_owner;
    past = All-map (λ p le. omega (arith, le)) tasks k.past;
    latched = All-map (λ p le e. absurd (omega (arith, le, e))) tasks k.past;
    held_poster =
        OnSome-any h (λ t. All-map (λ p le e. absurd (omega (arith, le, e))) tasks k.past);
    one = k.one;
  }

  pub Fair-granted :
      (h : Option MovementToken) (t : MovementToken)
      → t.id ≡ suc n
      → OnlyBy tick t.owner tasks
      → Fair h n tick at by issued tasks
      → Fair (some t) (suc n) tick at by (t ∷ issued) tasks
  Fair-granted h t e only k = record {
    numbered = (omega (arith, e), All-map (λ s le. omega (arith, le)) issued k.numbered);
    held_number = omega (arith, e);
    held_owner =
        (λ _. refl, All-map (λ s le same_. absurd (omega (arith, le, same_, e))) issued k.numbered);
    past = k.past;
    latched = k.latched;
    held_poster = only;
    one = k.one;
  }

  pub Fair-forgotten :
      (h : Option MovementToken) (t : MovementToken)
      → Fair h n tick at by (t ∷ issued) tasks
      → Fair h n tick at by issued tasks
  Fair-forgotten none t k = record {
    numbered = k.numbered.1;
    held_number = tt;
    held_owner = tt;
    past = k.past;
    latched = k.latched;
    held_poster = tt;
    one = k.one;
  }
  Fair-forgotten (some h) t k = record {
    numbered = k.numbered.1;
    held_number = k.held_number;
    held_owner = k.held_owner.1;
    past = k.past;
    latched = k.latched;
    held_poster = k.held_poster;
    one = k.one;
  }

  pub Fair-renewed :
      (h t : MovementToken)
      → t.id ≡ h.id
      → t.owner ≡ h.owner
      → Fair (some h) n tick at by issued tasks
      → Fair (some t) n tick at by (t ∷ issued) tasks
  Fair-renewed h t same_id same_ k = record {
    numbered = (omega (arith, same_id, k.held_number), k.numbered);
    held_number = omega (arith, same_id, k.held_number);
    held_owner = (λ _. refl, All-map (λ s f e. f (e ∙ same_id) ∙ sym same_) issued k.held_owner);
    past = k.past;
    latched = k.latched;
    held_poster = All-map (λ p f e. f e ∙ sym same_) tasks k.held_poster;
    one = k.one;
  }

  pub Fair-posted :
      (h : MovementToken) (o : Owner)
      → o ≡ h.owner
      → Fair (some h) n tick at by issued tasks
      → Fair (some h) n tick (some tick) (some o) issued (record { tick = tick; owner = o } ∷ tasks)
  Fair-posted h o e k = record {
    numbered = k.numbered;
    held_number = k.held_number;
    held_owner = k.held_owner;
    past = (omega arith, k.past);
    latched = (
      λ _. (refl, refl),
      All-map (λ p f at_. (refl, ap some (e ∙ sym (f at_)))) tasks k.held_poster,
    );
    held_poster = (λ _. e, k.held_poster);
    one = (All-map (λ p f at_. f at_ ∙ sym e) tasks k.held_poster, k.one);
  }

  -- Nobody else has posted, as the wheel sees it.
  pub Fair-allows :
      (h : Option MovementToken) (owner : Owner)
      → other_posted owner tick at by ≡ false
      → Fair h n tick at by issued tasks
      → OnlyBy tick owner tasks
  Fair-allows h owner free_ k = All-map (λ p f e. mine p (f e)) tasks k.latched
    where
      mine : (p : Posted) → (at ≡ some tick) × (by ≡ some p.owner) → p.owner ≡ owner
      mine p (latch, poster) = same_owner→eq p.owner owner (
          own (
            subst (λ o. other_posted owner tick (some tick) o ≡ false) poster
              (subst (λ o. other_posted owner tick o by ≡ false) latch free_)))
        where
          own :
              other_posted owner tick (some tick) (some p.owner) ≡ false
              → same_owner p.owner owner ≡ true
          own f = ground arith

  -- A tick that nobody has posted in yet.
  pub Fair-new :
      (h : Option MovementToken) (owner : Owner)
      → Fair h n tick at by issued tasks
      → OnlyBy (suc tick) owner tasks
  Fair-new h owner k = All-map (λ p le e. absurd (omega (arith, le, e))) tasks k.past
