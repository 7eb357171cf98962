-- ===== src/Budget/Announcements.antt =====
-- The calls of `on_change` by `BudgetGovernor`, harness/wasted_harness/budget.py.
use wanted.Base.{ℕ, ◌≡◌, ◌≢◌, true, none, some, List, [], ◌∷◌, ◌++◌, arith, Name}
use wanted.Budget.Governor.{
  BudgetGovernor, Change, Reason, set_level, recompute, record_spend, read_level, force_level,
  prune,
}
use wanted.Budget.Levels.{recorded, recorded_parts}

-- The announcements lead from one level to another: each starts where the one before it ended, and
-- none announces a change to the level that already held.
abbrev pub Leads : ℕ → List Change → ℕ → Type 0
Leads start [] level = start ≡ level
Leads start (c ∷ cs) level = (c.old ≡ start) × (c.new ≢ start) × Leads c.new cs level

Leads-append :
    (start level : ℕ) (cs : List Change) (c : Change)
    → Leads start cs level
    → c.old ≡ level
    → c.new ≢ level
    → Leads start (cs ++ c ∷ []) c.new
Leads-append start level [] c h p q = ground arith
Leads-append start level (x ∷ cs) c h p q = (h.0, h.1, Leads-append x.new level cs c h.2 p q)

-- Wired, with announcements that account for the level since `start`.
pub record IsAnnounced (start : ℕ) (g : BudgetGovernor) : Type 0 where
  pub on : g.wired ≡ true
  pub leads : Leads start g.announced g.level

set_level-IsAnnounced :
    (start new : ℕ) (r : Reason) (g : BudgetGovernor)
    → IsAnnounced start g
    → IsAnnounced start (set_level new r g)
unfolding set_level
set_level-IsAnnounced start new r g h = ground (
  arith,
  Leads-append start g.level g.announced (record { old = g.level; new = new; reason = r }) h.leads,
)

pub recompute-IsAnnounced :
    (start now : ℕ) (r : Reason) (g : BudgetGovernor)
    → IsAnnounced start g
    → IsAnnounced start (recompute now r g)
unfolding recompute prune
recompute-IsAnnounced start now r g h =
    set_level-IsAnnounced start _ _ (prune now g) (record { on = h.on; leads = h.leads })

-- The operations that the harness calls while it runs.
pub data Op : Type 0 where
  spent : ℕ → ℕ → Name → ℕ → Op
  looked : ℕ → Op
  forced : ℕ → Op

-- One operation; a refused `force_level` raises and changes nothing.
unfoldable pub apply : Op → BudgetGovernor → BudgetGovernor
apply (spent now now' today usd) g = record_spend now now' today usd g
apply (looked now) g = read_level now g
apply (forced level) g = elim (force_level level g) [ none ↦ g | some g' ↦ g' ]

unfoldable pub run : List Op → BudgetGovernor → BudgetGovernor
run [] g = g
run (op ∷ ops) g = run ops (apply op g)

apply-IsAnnounced :
    (start : ℕ) (op : Op) (g : BudgetGovernor)
    → IsAnnounced start g
    → IsAnnounced start (apply op g)
unfolding apply record_spend read_level force_level
apply-IsAnnounced start (spent now now' today usd) g h =
    recompute-IsAnnounced start now' _ (recorded now today usd g)
      (ground (arith, recorded_parts now today usd g))
apply-IsAnnounced start (looked now) g h = recompute-IsAnnounced start now _ g h
apply-IsAnnounced start (forced level) g h =
    ground (arith, set_level-IsAnnounced start level Reason.manual g h)

-- After any operations on a governor whose callback is wired, the announcements still lead from
-- the level at which the callback was wired to the present one, with no step announced twice.
pub run-IsAnnounced :
    (start : ℕ) (ops : List Op) (g : BudgetGovernor)
    → IsAnnounced start g
    → IsAnnounced start (run ops g)
unfolding run
run-IsAnnounced start [] g h = h
run-IsAnnounced start (op ∷ ops) g h =
    run-IsAnnounced start ops (apply op g) (apply-IsAnnounced start op g h)
