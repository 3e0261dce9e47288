-- ===== src/Avails/Connect/Retries.antt =====
-- The retries of a connection, and their timeouts.
use peer_connect.Prelude.{
  ℕ, zero, suc, ◌+◌, ◌*◌, ◌^◌, ◌≤◌, ◌<◌, min, Bool, true, false, Option, none, some, List, [], ◌∷◌,
  ◌≡◌, refl, sym, ap, ◌∙◌, inl, inr, arith, leb, if◌then◌else◌, length, Option-cases, Bool-cases,
  All,
}
use mathlib.Core.Path.{subst}
use native.Mathlib.Nat.{pow-suc}
use peer_connect.Avails.Connect.{
  get_timeouts, endless_timeouts, Connected, connected, raised, connect_each, connect_to_peer,
  default_max_value,
}

-- the timeouts from the i-th on: the first one doubled i times, up to the largest value
abbrev pub backoff : ℕ → ℕ → ℕ → ℕ → List ℕ
backoff zero i timeout max_value = []
backoff (suc n) i timeout max_value =
    min (timeout * 2 ^ i) max_value ∷ backoff n (suc i) timeout max_value

-- one try after the other until one succeeds
abbrev pub tries : (ℕ → ℕ → Option ℕ) → ℕ → List ℕ → Connected × List ℕ
tries attempt i [] = (raised, [])
tries attempt i (timeout ∷ timeouts) = elim (attempt i timeout) [
  | some sock ↦ (connected sock, timeout ∷ [])
  | none ↦ ((tries attempt (suc i) timeouts).0, timeout ∷ (tries attempt (suc i) timeouts).1)
]

double_pow : (t i : ℕ) → t * 2 ^ i * 2 ≡ t * 2 ^ suc i
double_pow t i = rw (pow-suc 2 i) (grind arith)

get_timeouts-backoff :
    (n i timeout max_value : ℕ)
    → get_timeouts n (timeout * 2 ^ i) 2 max_value ≡ backoff n i timeout max_value
unfolding get_timeouts
get_timeouts-backoff zero i timeout max_value = refl
get_timeouts-backoff (suc n) i timeout max_value =
    rw (double_pow timeout i) (
      ap (◌∷◌ (min (timeout * 2 ^ i) max_value)) (get_timeouts-backoff n (suc i) timeout max_value))

length-backoff : (n i timeout max_value : ℕ) → length (backoff n i timeout max_value) ≡ n
length-backoff zero i timeout max_value = refl
length-backoff (suc n) i timeout max_value = ap suc (length-backoff n (suc i) timeout max_value)

module _ (attempt : ℕ → ℕ → Option ℕ) where
  connect_each-none :
      (i retries t : ℕ) (ts : List ℕ)
      → attempt i t ≡ none
      → connect_each attempt retries i (t ∷ ts) ≡ (
          if leb retries (suc i) then (raised, t ∷ []) else (
            (connect_each attempt retries (suc i) ts).0,
            t ∷ (connect_each attempt retries (suc i) ts).1,
          ))
  unfolding connect_each
  connect_each-none i retries t ts e = rw (e, connect_each) refl

  connect_each-some :
      (i retries t sock : ℕ) (ts : List ℕ)
      → attempt i t ≡ some sock
      → connect_each attempt retries i (t ∷ ts) ≡ (connected sock, t ∷ [])
  unfolding connect_each
  connect_each-some i retries t sock ts e = rw (e, connect_each) refl

  tries-none :
      (i t : ℕ) (ts : List ℕ)
      → attempt i t ≡ none
      → tries attempt i (t ∷ ts) ≡ ((tries attempt (suc i) ts).0, t ∷ (tries attempt (suc i) ts).1)
  tries-none i t ts e = rw (e, tries) refl

  tries-some :
      (i t sock : ℕ) (ts : List ℕ)
      → attempt i t ≡ some sock
      → tries attempt i (t ∷ ts) ≡ (connected sock, t ∷ [])
  tries-some i t sock ts e = rw (e, tries) refl

  connect_each-nil : (i retries : ℕ) → connect_each attempt retries i [] ≡ (raised, [])
  unfolding connect_each
  connect_each-nil i retries = refl

  either_same {ℓ} : {A : Type ℓ} (b : Bool) (x y : A) → x ≡ y → (if b then x else y) ≡ y
  either_same true x y h = h
  either_same false x y h = refl

  connect_each-tries :
      (i retries : ℕ) (ts : List ℕ)
      → i + length ts ≡ retries
      → connect_each attempt retries i ts ≡ tries attempt i ts
  connect_each-tries i retries [] h = connect_each-nil i retries
  connect_each-tries i retries (t ∷ []) h = elim (Option-cases (attempt i t)) [
    | inr (s, e) ↦ connect_each-some i retries t s [] e ∙ sym (tries-some i t s [] e)
    | inl e ↦
        connect_each-none i retries t [] e
        ∙ (rw (connect_each-nil (suc i) retries)
              (either_same (leb retries (suc i)) (raised, t ∷ []) (raised, t ∷ []) refl)
            ∙ sym (tries-none i t [] e))
  ]
  connect_each-tries i retries (t ∷ u ∷ ts) h = elim (Option-cases (attempt i t)) [
    | inr (s, e) ↦ connect_each-some i retries t s (u ∷ ts) e ∙ sym (tries-some i t s (u ∷ ts) e)
    | inl e ↦
        let more : leb retries (suc i) ≡ false = ground (arith, h) in
        connect_each-none i retries t (u ∷ ts) e
        ∙ (rw more (
              ap (λ r. (r.0, t ∷ r.1))
                (connect_each-tries (suc i) retries (u ∷ ts) (omega (arith, h))))
            ∙ sym (tries-none i t (u ∷ ts) e))
  ]

-- the tries
length-tries :
    (attempt : ℕ → ℕ → Option ℕ) (i : ℕ) (timeouts : List ℕ)
    → length (tries attempt i timeouts).1 ≤ length timeouts
length-tries attempt i [] = omega arith
length-tries attempt i (t ∷ ts) = elim (Option-cases (attempt i t)) [
  | inr (s, e) ↦ rw (e, tries) (omega arith)
  | inl e ↦ rw (e, tries) (omega (arith, length-tries attempt (suc i) ts))
]

connect_to_peer-eq :
    (attempt : ℕ → ℕ → Option ℕ) (timeout retries : ℕ)
    → connect_to_peer attempt timeout retries
      ≡ connect_each attempt retries 0 (get_timeouts retries timeout 2 default_max_value)
unfolding connect_to_peer
connect_to_peer-eq attempt timeout retries = refl

-- A connection is tried at most as often as there are retries, each time with double the timeout but
-- no more than the largest one, and the first try that succeeds gives the socket: the count of the
-- retries never ends the loop before its timeouts do.
pub connect_to_peer_lem :
    (attempt : ℕ → ℕ → Option ℕ) (timeout retries : ℕ)
    → (connect_to_peer attempt timeout retries
        ≡ tries attempt 0 (backoff retries 0 timeout default_max_value))
      × (length (connect_to_peer attempt timeout retries).1 ≤ retries)
connect_to_peer_lem attempt timeout retries =
    let listed : get_timeouts retries timeout 2 default_max_value
        ≡ backoff retries 0 timeout default_max_value =
      ap (λ t. get_timeouts retries t 2 default_max_value) (omega arith)
      ∙ get_timeouts-backoff retries 0 timeout default_max_value in
    let same : connect_to_peer attempt timeout retries
        ≡ tries attempt 0 (backoff retries 0 timeout default_max_value) =
      connect_to_peer-eq attempt timeout retries
      ∙ (ap (connect_each attempt retries 0) listed
          ∙ connect_each-tries attempt 0 retries (backoff retries 0 timeout default_max_value)
              (omega (arith, length-backoff retries 0 timeout default_max_value))) in
    (
      same,
      rw same (
          omega (
            arith,
            length-tries attempt 0 (backoff retries 0 timeout default_max_value),
            length-backoff retries 0 timeout default_max_value,
          )),
    )

endless-largest :
    (n current max_value : ℕ) → All (λ t. t ≡ max_value) (endless_timeouts n current 2 max_value)
unfolding endless_timeouts
endless-largest zero current max_value = tt
endless-largest (suc n) current max_value = elim (Bool-cases (leb max_value current)) [
  | inl e ↦ rw e (refl, endless-largest n (current * 2) max_value)
  | inr e ↦ rw e (endless-largest n (current * 2) max_value)
]

endless-reached :
    (n current max_value : ℕ)
    → max_value ≤ current
    → n ≤ length (endless_timeouts n current 2 max_value)
unfolding endless_timeouts
endless-reached zero current max_value h = omega arith
endless-reached (suc n) current max_value h =
    let now : leb max_value current ≡ true = ground arith in
    rw now (omega (arith, endless-reached n (current * 2) max_value (omega arith)))

endless-more :
    (k n current max_value : ℕ)
    → k ≤ length (endless_timeouts n (current * 2) 2 max_value)
    → k ≤ length (endless_timeouts (suc n) current 2 max_value)
unfolding endless_timeouts
endless-more k n current max_value h = elim (Bool-cases (leb max_value current)) [
  | inl e ↦ rw e (omega (arith, h))
  | inr e ↦ rw e h
]

endless-enough :
    (k d current max_value : ℕ)
    → 0 < current
    → max_value ≤ current + d
    → k ≤ length (endless_timeouts (d + k) current 2 max_value)
endless-enough k zero current max_value h m =
    subst (λ n. k ≤ length (endless_timeouts n current 2 max_value)) (omega arith)
      (endless-reached k current max_value (omega arith))
endless-enough k (suc d) current max_value h m =
    subst (λ n. k ≤ length (endless_timeouts n current 2 max_value)) (omega arith)
      (endless-more k (d + k) current max_value
        (endless-enough k d (current * 2) max_value (omega arith) (omega arith)))

-- With max_retries=-1 the largest value is all that is yielded, not the values that lead up to it; but
-- it is yielded as often as wanted, after as many rounds more as the first value is below it.
pub endless_timeouts_lem :
    (k d current max_value : ℕ)
    → 0 < current
    → max_value ≤ current + d
    → All (λ t. t ≡ max_value) (endless_timeouts (d + k) current 2 max_value)
      × (k ≤ length (endless_timeouts (d + k) current 2 max_value))
endless_timeouts_lem k d current max_value h m =
    (endless-largest (d + k) current max_value, endless-enough k d current max_value h m)
