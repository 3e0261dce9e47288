-- ===== src/Files/Names/Unique.antt =====
-- The name that is found is new, and the loop ends.
use mathlib.Core.List.{append_assoc}
use peer_connect.Prelude.{
  ℕ, zero, suc, ◌+◌, ◌-◌, ◌*◌, ◌/◌, ◌%◌, ◌≤◌, ◌<◌, true, false, not, List, [], ◌∷◌, ◌++◌, ◌≡◌, refl,
  sym, ap, ◌∙◌, inl, inr, arith, ltb, ◌==◌, if◌then◌else◌, length, drop, filter, Bool-cases,
  length-append, length-filter-le,
}
use peer_connect.Files.Names.{Name, same_name, exists, digits, numbered, search_name, validatename}

-- the number that digits up to a closing bracket stand for
abbrev value_of : ℕ → Name → ℕ
value_of acc [] = acc
value_of acc (c ∷ cs) =
    let rest = value_of (acc * 10 + (c - 48)) cs in if c == 41 then acc else rest

value_of-digits :
    (rounds n : ℕ) (rest : Name)
    → n < rounds
    → value_of 0 (digits rounds n ++ rest) ≡ value_of n rest
unfolding digits
value_of-digits zero n rest h = absurd (omega (arith, h))
value_of-digits (suc rounds) n rest h = elim (Bool-cases (ltb n 10)) [
  | inl small ↦
      let digit : (48 + n == 41) ≡ false = ground arith in
      let value : 0 * 10 + (48 + n - 48) ≡ n = omega arith in rw (small, digit, value) refl
  | inr large ↦
      let big : 10 ≤ n = ground (arith, large) in
      let digit : (48 + n % 10 == 41) ≡ false = ground arith in
      let value : n / 10 * 10 + (48 + n % 10 - 48) ≡ n = omega arith in
      rw
        (
          large,
          append_assoc,
          value_of-digits rounds (n / 10) ((48 + n % 10) ∷ rest) (omega (arith, h, big)),
          digit,
          value,
        )
        refl
]

same_name_refl : (x : Name) → same_name x x ≡ true
unfolding same_name
same_name_refl [] = refl
same_name_refl (c ∷ cs) = ground (arith, same_name_refl cs)

eq_of_same_name : (x y : Name) → same_name x y ≡ true → x ≡ y
unfolding same_name
eq_of_same_name [] [] h = refl
eq_of_same_name [] (d ∷ ds) h = absurd (ground (arith, h))
eq_of_same_name (c ∷ cs) [] h = absurd (ground (arith, h))
eq_of_same_name (c ∷ cs) (d ∷ ds) h = ground (arith, h, eq_of_same_name cs ds)

append_cancel : (b x y : Name) → b ++ x ≡ b ++ y → x ≡ y
append_cancel [] x y e = e
append_cancel (c ∷ b) x y e = append_cancel b x y (ap (drop 1) e)

numbered_injective : (base ext : Name) (j k : ℕ) → numbered base ext j ≡ numbered base ext k → j ≡ k
unfolding numbered
numbered_injective base ext j k e =
    sym (value_of-digits (suc j) j (41 ∷ ext) (omega arith))
    ∙ ap (value_of 0) (ap (drop 2) (append_cancel base _ _ e))
    ∙ value_of-digits (suc k) k (41 ∷ ext) (omega arith)

numbered_apart :
    (base ext : Name) (j k : ℕ)
    → j < k
    → same_name (numbered base ext j) (numbered base ext k) ≡ false
numbered_apart base ext j k h =
    elim (Bool-cases (same_name (numbered base ext j) (numbered base ext k))) [
      | inr e ↦ e
      | inl e ↦ absurd (
          omega (
            arith,
            h,
            numbered_injective base ext j k
                (eq_of_same_name (numbered base ext j) (numbered base ext k) e),
          ))
    ]

abbrev without : Name → List Name → List Name
without x names = filter (λ y. not (same_name x y)) names

exists-without :
    (x z : Name) (names : List Name)
    → same_name x z ≡ false
    → exists z (without x names) ≡ exists z names
unfolding exists
exists-without x z [] h = refl
exists-without x z (y ∷ names) h =
    ground
      (arith, h, exists-without x z names h, eq_of_same_name z y, λ (e : z ≡ y). ap (same_name x) e)

length-without :
    (x : Name) (names : List Name) → exists x names ≡ true → length (without x names) < length names
unfolding exists
length-without x [] h = absurd (ground (arith, h))
length-without x (y ∷ names) h =
    ground (arith, h, length-without x names, length-filter-le {0} (λ z. not (same_name x z)) names)

-- Names that differ from all candidates do not matter to the search.
search_name-without :
    (rounds counter : ℕ) (base ext x cand : Name) (names : List Name)
    → same_name x cand ≡ false
    → ((k : ℕ) → counter ≤ k → same_name x (numbered base ext k) ≡ false)
    → (search_name rounds base ext counter cand (without x names)
        ≡ search_name rounds base ext counter cand names)
      × (same_name x (search_name rounds base ext counter cand names) ≡ false)
unfolding search_name
search_name-without zero counter base ext x cand names h apart = (refl, h)
search_name-without (suc rounds) counter base ext x cand names h apart = ground (
  arith,
  h,
  exists-without x cand names h,
  search_name-without rounds (counter + 1) base ext x (numbered base ext counter) names
      (apart counter (omega arith)) (λ k le. apart k (omega (arith, le))),
)

search_name_new :
    (rounds counter : ℕ) (base ext cand : Name) (names : List Name)
    → length names < rounds
    → ((k : ℕ) → counter ≤ k → same_name cand (numbered base ext k) ≡ false)
    → exists (search_name rounds base ext counter cand names) names ≡ false
unfolding search_name
search_name_new zero counter base ext cand names h apart = absurd (omega (arith, h))
search_name_new (suc rounds) counter base ext cand names h apart =
    elim (Bool-cases (exists cand names)) [
      | inr new ↦ rw new new
      | inl old ↦
          let next = numbered base ext counter in
          let fewer = without cand names in
          let (same, differs) =
            search_name-without rounds (counter + 1) base ext cand next names
              (apart counter (omega arith)) (λ k le. apart k (omega (arith, le))) in
          let ih =
            search_name_new rounds (counter + 1) base ext next fewer
              (omega (arith, h, length-without cand names old))
              (λ k le. numbered_apart base ext counter k (omega (arith, le))) in
          rw old (
            sym (
              exists-without cand (search_name rounds base ext (counter + 1) next names) names
                differs)
            ∙ ap (λ t. exists t fewer) (sym same)
            ∙ ih)
    ]

length-numbered :
    (base ext : Name) (k : ℕ) → length base + length ext < length (numbered base ext k)
unfolding numbered
length-numbered base ext k = omega (
  arith,
  length-append base (32 ∷ 40 ∷ (digits (suc k) k ++ 41 ∷ ext)),
  length-append (digits (suc k) k) (41 ∷ ext),
)

-- The name that is found is that of no file of the directory, after at most one round more than
-- the directory has files, and a name that is new is kept.
pub validatename_lem :
    (base ext : Name) (names : List Name)
    → (exists (validatename base ext names) names ≡ false)
      × (exists (base ++ ext) names ≡ false → validatename base ext names ≡ base ++ ext)
unfolding validatename search_name
validatename_lem base ext names = (
  search_name_new (suc (length names)) 1 base ext (base ++ ext) names (omega arith)
      (λ k le. first_apart k),
  λ new. rw new refl,
)
  where
    first_apart : (k : ℕ) → same_name (base ++ ext) (numbered base ext k) ≡ false
    first_apart k = elim (Bool-cases (same_name (base ++ ext) (numbered base ext k))) [
      | inr e ↦ e
      | inl e ↦ absurd (
          omega (
            arith,
            length-numbered base ext k,
            length-append base ext,
            ap length (eq_of_same_name (base ++ ext) (numbered base ext k) e),
          ))
    ]
