-- ===== src/Recovery/Search.antt =====
-- How often the search for a vehicle is widened.
use wanted.Base.{
  ap, sym, ◌∙◌, get_or, ℕ, zero, suc, ◌-◌, ◌≡◌, refl, false, Option, none, some, List, [], ◌∷◌,
  get_elem?, ltb, Bool-cases, inl, inr, drop, ◌++◌,
}
use wanted.Recovery.Stall.{Stranded, check, attempt, stranded_radii, retry_gap}

abbrev pub then_asked : Option ℕ → List ℕ → List ℕ
then_asked none rs = rs
then_asked (some r) rs = r ∷ rs

-- The radii searched while he stays on foot without a task.
unfoldable pub search : List ℕ → Stranded → List ℕ
search [] s = []
search (now ∷ ts) s =
    let (s', radius) = check now false false s in let rest = search ts s' in then_asked radius rest

-- The first elements of a list.
abbrev pub IsPrefix : List ℕ → List ℕ → Type 0
IsPrefix xs ys = (zs : List ℕ) × (xs ++ zs ≡ ys)

drop-at : (xs : List ℕ) (n r : ℕ) → get_elem? xs n ≡ some r → drop n xs ≡ r ∷ drop (suc n) xs
drop-at [] n r e = absurd (cc)
drop-at (x ∷ xs) zero r e = ap (λ o. get_or o x ∷ xs) e
drop-at (x ∷ xs) (suc n) r e = drop-at xs n r e

attempt-IsPrefix :
    (now : ℕ) (ts : List ℕ) (s : Stranded) (o : Option ℕ)
    → get_elem? stranded_radii s.attempts ≡ o
    → IsPrefix (search ts s) (drop s.attempts stranded_radii)
    → IsPrefix
        (search ts (record { attempts = suc s.attempts; last_attempt_at = now }))
        (drop (suc s.attempts) stranded_radii)
    → let (s', radius) = attempt now o s in
      IsPrefix (then_asked radius (search ts s')) (drop s.attempts stranded_radii)
attempt-IsPrefix now ts s none e same_ next = same_
attempt-IsPrefix now ts s (some r) e same_ next =
    (next.0, ap (λ xs. r ∷ xs) next.1 ∙ sym (drop-at stranded_radii s.attempts r e))

-- However long he stays on foot without a task, and whenever it is looked at: the search is widened from
-- one radius to the next, and after the last one nothing more is asked.
pub search-IsPrefix :
    (ts : List ℕ) (s : Stranded) → IsPrefix (search ts s) (drop s.attempts stranded_radii)
unfolding search check
search-IsPrefix [] s = (drop s.attempts stranded_radii, refl)
search-IsPrefix (now ∷ ts) s =
    let same_ = search-IsPrefix ts s in
    let next = search-IsPrefix ts (record { attempts = suc s.attempts; last_attempt_at = now }) in
    elim (Bool-cases (ltb (now - s.last_attempt_at) retry_gap)) [
      | inl waits ↦ rw waits same_
      | inr due ↦
          rw due (attempt-IsPrefix now ts s (get_elem? stranded_radii s.attempts) refl same_ next)
    ]
