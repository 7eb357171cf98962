-- ===== src/Predictions/Generator/Spacing.antt =====
-- The questions of a session, one after another: `generate` of
-- harness/wasted_harness/predictions/generator.py over any calls.
use wanted.Base.{
  ℕ, ◌+◌, ◌-◌, ◌≤◌, ◌<◌, ◌≡◌, refl, sym, ap, ◌∙◌, subst, ◌⊎◌, inl, inr, Bool, true, false, Option,
  none, some, List, [], ◌∷◌, Name, Bool-cases, arith, if◌then◌else◌, ltb, length, elapsed, keep,
  same, keep-append, length-append,
}
use wanted.Predictions.Window.{Template, total_s}
use wanted.Predictions.BaseRate.{Calibration}
use wanted.Predictions.Generator.Config.{GeneratorConfig, Generator, Row, Answer}
use wanted.Predictions.Generator.Ask.{
  is_open, prune_open, is_candidate, may_ask, book, generate, finish, ask, choose, build_row,
}
use wanted.Predictions.Generator.Asked.{IsAsked, generate-IsAsked}
use wanted.Predictions.Generator.Memory.{
  Question, Fresh, Follows, IsSpaced, is_running, Since, Newest, IsLogged, later-IsLogged,
  keep_open-later, prune_open-IsLogged, candidate-says, elapsed-Since, types-spaced, events-spaced,
  picked_at-set_picked, set_picked-types, booked-events, differ,
}

module _ {S : Type 0} (config : GeneratorConfig)
    (base_rate : Option (Template S → Option Calibration)) where
  abbrev asked : ℕ → Template S → Question
  asked now t = record {
    at = now;
    type_ = t.prediction_type;
    is_event = t.is_event;
    closes = now + total_s t.window;
  }

  event-Since :
      (e : Bool) (now : ℕ) (last : Option ℕ)
      → (e ≡ false) ⊎ Since (if e then some now else last) now
  event-Since true now last = inr (omega arith)
  event-Since false now last = inl refl

  book-IsLogged :
      (now : ℕ) (t : Template S) (g : Generator) (log : List Question)
      → IsLogged now g log
      → IsLogged now (book config base_rate now t g) (asked now t ∷ log)
  book-IsLogged now t g log k = record {
    newest = (refl, refl, refl);
    events = (
      event-Since t.is_event now g.last_event_at,
      booked-events t.is_event now g.last_event_at log k.events k.past,
    );
    types = (
      subst (λ x. Since x now) (sym (picked_at-set_picked t.prediction_type now g.last_picked_at))
          (omega arith),
      set_picked-types t.prediction_type now g.last_picked_at log k.types k.past,
    );
    past = (omega arith, k.past);
    counts = λ later p.
        ap length
          (keep-append (is_open later) g.opens ((t.prediction_type, now + total_s t.window) ∷ []))
        ∙ length-append (keep (is_open later) g.opens)
            (keep (is_open later) ((t.prediction_type, now + total_s t.window) ∷ []))
        ∙ one_more later (k.counts later p);
  }
    where
      one_more :
          (later : ℕ)
          → length (keep (is_open later) g.opens) ≡ length (keep (is_running later) log)
          → length (keep (is_open later) g.opens)
              + length (keep (is_open later) ((t.prediction_type, now + total_s t.window) ∷ []))
            ≡ length (keep (is_running later) (asked now t ∷ log))
      one_more later e = ground arith

  gates-say :
      (now : ℕ) (g : Generator)
      → may_ask config base_rate now g ≡ true
      → (elapsed g.last_generated_at config.min_gap_s now ≡ true)
        × (length g.opens < config.max_concurrent_open)
  unfolding may_ask
  gates-say now g h = ground arith

  asked-Follows :
      (s : S) (now : ℕ) (t : Template S) (g : Generator) (log : List Question)
      → Newest g log
      → may_ask config base_rate now g ≡ true
      → is_candidate config s now g t ≡ true
      → Follows config (asked now t) log
  asked-Follows s now t g [] n h c = tt
  asked-Follows s now t g (a ∷ log) n h c =
      let (gap, _) = gates-say now g h in
      let (other, event, _) = candidate-says config s now g t c in
      (
        elapsed-Since g.last_generated_at config.min_gap_s now a.at gap
            (subst (λ x. Since x a.at) (sym n.0) (omega arith)),
        λ e.
            differ a.type_ t.prediction_type
              (subst (λ x. same (some t.prediction_type) x ≡ false) n.1 other) e,
        elim event [ inl p ↦ inr p | inr p ↦ inl (sym n.2 ∙ p.0) ],
      )

  -- A call of `generate`.
  pub record Call : Type 0 where
    pub state : S
    pub now : ℕ
    pub wall : ℕ
    pub session : Option Name

  abbrev pub log_answer : ℕ → Answer → List Question → List Question
  log_answer now (Answer.row r) log =
      record {
        at = now;
        type_ = r.prediction_type;
        is_event = r.is_event;
        closes = now + (r.resolves_at - r.opened_at);
      }
      ∷ log
  log_answer now Answer.nothing log = log
  log_answer now Answer.raised log = log

  unfoldable pub run :
      List (Template S) → List Call → Generator → List Question → Generator × List Question
  run catalog [] g log = (g, log)
  run catalog (c ∷ cs) g log =
      let (g', answer) = generate config base_rate catalog c.state c.now c.wall c.session g in
      run catalog cs g' (log_answer c.now answer log)

  -- The calls follow one another, and `last` is not before them.
  abbrev pub InOrder : ℕ → List Call → ℕ → Type 0
  InOrder first [] last = first ≤ last
  InOrder first (c ∷ cs) last = (first ≤ c.now) × InOrder c.now cs last

  record IsKept (now : ℕ) (g : Generator) (log : List Question) : Type 0 where
    logged : IsLogged now g log
    spaced : IsSpaced config log
    few : length (keep (is_running now) log) ≤ config.max_concurrent_open

  running-later :
      (now now' : ℕ) (log : List Question)
      → now ≤ now'
      → length (keep (is_running now') log) ≤ length (keep (is_running now) log)
  running-later now now' [] h = omega arith
  running-later now now' (a ∷ log) h = ground (arith, running-later now now' log h)

  later-IsKept :
      (now now' : ℕ) (g : Generator) (log : List Question)
      → now ≤ now'
      → IsKept now g log
      → IsKept now' g log
  later-IsKept now now' g log h k = record {
    logged = later-IsLogged now now' g log h k.logged;
    spaced = k.spaced;
    few = omega (arith, running-later now now' log h, k.few);
  }

  prune-IsKept :
      (now : ℕ) (g : Generator) (log : List Question)
      → IsKept now g log
      → IsKept now (prune_open now g) log
  prune-IsKept now g log k = record {
    logged = prune_open-IsLogged now g log k.logged;
    spaced = k.spaced;
    few = k.few;
  }

  book-IsKept :
      (s : S) (now : ℕ) (t : Template S) (g : Generator) (log : List Question)
      → IsKept now g log
      → keep (is_open now) g.opens ≡ g.opens
      → may_ask config base_rate now g ≡ true
      → is_candidate config s now g t ≡ true
      → IsKept now (book config base_rate now t g) (asked now t ∷ log)
  book-IsKept s now t g log k pruned h c =
      let (_, room) = gates-say now g h in
      let (_, event, cooled) = candidate-says config s now g t c in
      let count = k.logged.counts now (omega arith) in
      record {
        logged = book-IsLogged now t g log k.logged;
        spaced = (
          asked-Follows s now t g log k.logged.newest h c,
          events-spaced config now t.is_event g.last_event_at log k.logged.events
              (elim event [ inl p ↦ inl p | inr p ↦ inr p.1 ]),
          types-spaced config now t.prediction_type g.last_picked_at log k.logged.types cooled,
          k.spaced,
        );
        few = fits (ltb now (now + total_s t.window)) (sym (ap length pruned) ∙ count) room;
      }
    where
      fits :
          (b : Bool)
          → length g.opens ≡ length (keep (is_running now) log)
          → length g.opens < config.max_concurrent_open
          → length
              (if b then asked now t ∷ keep (is_running now) log else keep (is_running now) log)
            ≤ config.max_concurrent_open
      fits true e h = omega arith
      fits false e h = omega arith

  abbrev is_row : Answer → Bool
  is_row (Answer.row r) = true
  is_row Answer.nothing = false
  is_row Answer.raised = false

  -- Without a question nothing is booked.
  generate-books_none :
      (catalog : List (Template S)) (s : S) (now wall : ℕ) (session : Option Name) (g : Generator)
      → is_row (generate config base_rate catalog s now wall session g).1 ≡ false
      → let g' = (generate config base_rate catalog s now wall session g).0 in
        (g' ≡ g) ⊎ (g' ≡ prune_open now g)
  unfolding generate
  generate-books_none catalog s now wall none g h = inl refl
  generate-books_none catalog s now wall (some session) g h =
      elim (Bool-cases (may_ask config base_rate now pruned)) [
        | inr shut ↦ rw shut (inr refl)
        | inl gates ↦
            let h' : is_row
                  (ask config base_rate now wall session pruned
                    (choose config base_rate catalog s now pruned)).1
                ≡ false =
              rw gates at h in
            rw gates (inr (chosen (choose config base_rate catalog s now pruned) h'))
      ]
    where
      pruned : Generator
      pruned = prune_open now g

      made :
          (t : Template S) (o : Option Row)
          → is_row (finish config base_rate now t pruned o).1 ≡ false
          → (finish config base_rate now t pruned o).0 ≡ pruned
      made t none h = refl
      made t (some r) h = absurd (cc)

      chosen :
          (o : Option (Template S × Option Calibration))
          → is_row (ask config base_rate now wall session pruned o).1 ≡ false
          → (ask config base_rate now wall session pruned o).0 ≡ pruned
      chosen none h = refl
      chosen (some choice) h = made choice.0 (build_row config choice.0 wall session choice.1) h

  silent :
      (catalog : List (Template S)) (s : S) (now wall : ℕ) (g : Generator) (r : Row)
      → (generate config base_rate catalog s now wall none g).1 ≡ Answer.row r
      → ⊥
  unfolding generate
  silent catalog s now wall g r h = cc

  question : ℕ → Name → Bool → ℕ → Question
  question at type_ is_event closes = record {
    at = at;
    type_ = type_;
    is_event = is_event;
    closes = closes;
  }

  asked-log :
      (catalog : List (Template S)) (s : S) (now wall : ℕ) (session : Name) (g g' : Generator)
      (r : Row) (log : List Question)
      (k : IsAsked config base_rate catalog s now wall session g g' r)
      → log_answer now (Answer.row r) log ≡ asked now k.template ∷ log
  unfolding question
  asked-log catalog s now wall session g g' r log k =
      let type_ = k.of_template.0 in
      let event = k.of_template.2 in
      let closes : now + (r.resolves_at - r.opened_at) ≡ now + total_s k.template.window =
        omega (arith, k.times.0, k.times.2) in
      ap (λ x. question now x r.is_event (now + (r.resolves_at - r.opened_at)) ∷ log) type_
      ∙ ap
          (λ x.
            question now k.template.prediction_type x (now + (r.resolves_at - r.opened_at)) ∷ log)
          event
      ∙ ap (λ x. question now k.template.prediction_type k.template.is_event x ∷ log) closes

  prune_twice :
      (now : ℕ) (g : Generator)
      → keep (is_open now) (prune_open now g).opens ≡ (prune_open now g).opens
  unfolding prune_open
  prune_twice now g = keep_open-later now now g.opens (omega arith)

  generate-IsKept :
      (catalog : List (Template S)) (c : Call) (g : Generator) (log : List Question)
      → IsKept c.now g log
      → let (g', answer) = generate config base_rate catalog c.state c.now c.wall c.session g in
        IsKept c.now g' (log_answer c.now answer log)
  generate-IsKept catalog c g log k = go c.session
    where
      P : Option Name → Generator × Answer
      P session = generate config base_rate catalog c.state c.now c.wall session g

      unchanged :
          (session : Option Name) → is_row (P session).1 ≡ false → IsKept c.now (P session).0 log
      unchanged session h = elim (generate-books_none catalog c.state c.now c.wall session g h) [
        | inl e ↦ subst (λ x. IsKept c.now x log) (sym e) k
        | inr e ↦ subst (λ x. IsKept c.now x log) (sym e) (prune-IsKept c.now g log k)
      ]

      changed :
          (session : Name) (r : Row)
          → (P (some session)).1 ≡ Answer.row r
          → IsKept c.now (P (some session)).0 (log_answer c.now (Answer.row r) log)
      changed session r h =
          let is = generate-IsAsked config base_rate catalog c.state c.now c.wall session g r h in
          subst (IsKept c.now (P (some session)).0)
            (sym (
              asked-log catalog c.state c.now c.wall session (prune_open c.now g)
                (P (some session)).0 r log is))
            (subst (λ x. IsKept c.now x (asked c.now is.template ∷ log)) (sym is.booked)
              (book-IsKept c.state c.now is.template (prune_open c.now g) log
                (prune-IsKept c.now g log k) (prune_twice c.now g) is.gates is.candidate))

      by :
          (session : Option Name) (answer : Answer)
          → (P session).1 ≡ answer
          → IsKept c.now (P session).0 (log_answer c.now answer log)
      by session Answer.nothing h = unchanged session (ap is_row h)
      by session Answer.raised h = unchanged session (ap is_row h)
      by (some session) (Answer.row r) h = changed session r h
      by none (Answer.row r) h = absurd (silent catalog c.state c.now c.wall g r h)

      go : (session : Option Name) → IsKept c.now (P session).0 (log_answer c.now (P session).1 log)
      go session = by session (P session).1 refl

  run-IsKept :
      (catalog : List (Template S)) (cs : List Call) (first last : ℕ) (g : Generator)
      (log : List Question)
      → InOrder first cs last
      → IsKept first g log
      → let (g', log') = run catalog cs g log in IsKept last g' log'
  unfolding run
  run-IsKept catalog [] first last g log o k = later-IsKept first last g log o k
  run-IsKept catalog (c ∷ cs) first last g log o k =
      let (g', answer) = generate config base_rate catalog c.state c.now c.wall c.session g in
      run-IsKept catalog cs c.now last g' (log_answer c.now answer log) o.1
        (generate-IsKept catalog c g log (later-IsKept first c.now g log o.0 k))

  -- However often a new generator is called, with any catalog, snapshots and sessions, at moments that
  -- follow one another: two questions in a row are the gap apart, of different types and not both
  -- events, any two questions of one type are its cooldown apart and any two events theirs, and at no
  -- moment after the last call are more than the most allowed still open.
  pub run-IsSpaced :
      (catalog : List (Template S)) (cs : List Call) (first last : ℕ) (g : Generator)
      → Fresh g
      → InOrder first cs last
      → let log = (run catalog cs g []).1 in
        IsSpaced config log × (length (keep (is_running last) log) ≤ config.max_concurrent_open)
  run-IsSpaced catalog cs first last g f o =
      let k = run-IsKept catalog cs first last g [] o (fresh-IsKept first g f) in (k.spaced, k.few)
    where
      none_open :
          (es : List (Name × ℕ)) → es ≡ [] → (later : ℕ) → length (keep (is_open later) es) ≡ 0
      none_open es e later = rw e refl

      fresh-IsKept : (first : ℕ) (g : Generator) → Fresh g → IsKept first g []
      fresh-IsKept first g f = record {
        logged = record {
          newest = (f.0, f.1, f.2);
          events = tt;
          types = tt;
          past = tt;
          counts = λ later p. none_open g.opens f.3 later;
        };
        spaced = tt;
        few = omega arith;
      }
