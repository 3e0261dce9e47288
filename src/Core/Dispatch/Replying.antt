-- ===== src/Core/Dispatch/Replying.antt =====
-- A future of the reply registry gets the first reply to its id.
use peer_connect.Prelude.{
  ℕ, zero, suc, ◌<◌, Option, none, some, List, [], ◌∷◌, ◌≡◌, ◌≢◌, refl, sym, ap, ◌∙◌, inl, inr,
  arith, ◌==◌, if◌then◌else◌, length, get_elem?, set, Dict, get, put, values, Option-cases,
  Bool-cases, All, get-put, get-remove,
}
use peer_connect.Core.Dispatch.{
  Future, pending, cancelled, result, Replies, WireData, register_reply, msg_arrived, resolve,
}
use peer_connect.Core.Connectivity.Recent.{get_elem?-append_last}

abbrev pub first_reply : ℕ → List WireData → Future
first_reply k [] = pending
first_reply k (d ∷ ds) = let rest = first_reply k ds in if d.msg_id == k then result d else rest

unfoldable pub arrive_all : List WireData → Replies → Replies
unfolding msg_arrived
arrive_all [] r = r
arrive_all (d ∷ ds) r = arrive_all ds (msg_arrived d r)

get_elem?-set_other {ℓ} :
    {A : Type ℓ} (xs : List A) (m n : ℕ) (x : A) → m ≢ n → get_elem? (set xs m x) n ≡ get_elem? xs n
get_elem?-set_other [] m n x h = refl
get_elem?-set_other (y ∷ xs) zero zero x h = absurd (h refl)
get_elem?-set_other (y ∷ xs) zero (suc n) x h = refl
get_elem?-set_other (y ∷ xs) (suc m) zero x h = refl
get_elem?-set_other (y ∷ xs) (suc m) (suc n) x h = get_elem?-set_other xs m n x (λ e. h (ap suc e))

get_elem?-set_self {ℓ} :
    {A : Type ℓ} (xs : List A) (n : ℕ) (x : A) {y : A}
    → get_elem? xs n ≡ some y
    → get_elem? (set xs n x) n ≡ some x
get_elem?-set_self [] n x h = cc
get_elem?-set_self (y ∷ xs) zero x h = refl
get_elem?-set_self (y ∷ xs) (suc n) x h = get_elem?-set_self xs n x h

-- no other id has the future
record IsOwn (k n : ℕ) (r : Replies) : Type 0 where
  others : (j : ℕ) → get j r.reply_registry ≡ some n → j ≡ k

resolve_other :
    (d : WireData) (o : Option Future) (m n : ℕ) (fs : List Future)
    → m ≢ n
    → get_elem? (resolve d o m fs) n ≡ get_elem? fs n
resolve_other d none m n fs h = refl
resolve_other d (some pending) m n fs h = get_elem?-set_other fs m n (result d) h
resolve_other d (some cancelled) m n fs h = refl
resolve_other d (some (result e)) m n fs h = refl

not-own :
    (k n : ℕ) (d : WireData) (r : Replies)
    → IsOwn k n r
    → d.msg_id ≢ k
    → get d.msg_id r.reply_registry ≢ some n
not-own k n d r own h e = h (own.others d.msg_id e)

gone : (a k : ℕ) (d : Dict ℕ) → get a d ≡ none → get k d ≡ (if a == k then none else get k d)
gone a k d h = elim (Bool-cases (a == k)) [
  | inl e ↦ let same : a ≡ k = ground (arith, e) in rw e (ap (λ j. get j d) (sym same) ∙ h)
  | inr e ↦ rw e refl
]

missing_ne : (a k n : ℕ) (d : Dict ℕ) → a ≡ k → get k d ≡ none → get a d ≡ some n → ⊥
missing_ne a k n d same h e =
    let both : none ≡ some n = sym h ∙ (ap (λ j. get j d) (sym same) ∙ e) in cc

module _ (k n : ℕ) where
  -- a message whose id has another future leaves this one
  arrived-other :
      (d : WireData) (r : Replies)
      → IsOwn k n r
      → get d.msg_id r.reply_registry ≢ some n
      → (get_elem? (msg_arrived d r).futures n ≡ get_elem? r.futures n)
        × (get k (msg_arrived d r).reply_registry
            ≡ (if d.msg_id == k then none else get k r.reply_registry))
        × IsOwn k n (msg_arrived d r)
  unfolding msg_arrived
  arrived-other d r own h = elim (Option-cases (get d.msg_id r.reply_registry)) [
    | inl e ↦ rw (e, msg_arrived) (refl, gone d.msg_id k r.reply_registry e, own)
    | inr (m, e) ↦
        rw (e, msg_arrived)
          (
            resolve_other d (get_elem? r.futures m) m n r.futures (λ s. h (e ∙ ap some s)),
            get-remove d.msg_id k r.reply_registry,
            record {
              others =
                  λ j g. own.others j (ground (arith, get-remove d.msg_id j r.reply_registry, g));
            },
          )
  ]

  arrive_all-done :
      (ds : List WireData) (r : Replies)
      → IsOwn k n r
      → get k r.reply_registry ≡ none
      → get_elem? (arrive_all ds r).futures n ≡ get_elem? r.futures n
  unfolding arrive_all
  arrive_all-done [] r own h = refl
  arrive_all-done (d ∷ ds) r own h =
      let (same, gone, own') =
        arrived-other d r own
          (λ e. missing_ne d.msg_id k n r.reply_registry (own.others d.msg_id e) h e) in
      arrive_all-done ds (msg_arrived d r) own' (ground (arith, gone, h)) ∙ same

  arrived-IsOwn :
      (d : WireData) (r : Replies)
      → IsOwn k n r
      → d.msg_id ≡ k
      → get k r.reply_registry ≡ some n
      → get_elem? r.futures n ≡ some pending
      → (get_elem? (msg_arrived d r).futures n ≡ some (result d))
        × (get k (msg_arrived d r).reply_registry ≡ none)
        × IsOwn k n (msg_arrived d r)
  unfolding msg_arrived
  arrived-IsOwn d r own at h f =
      let found : get d.msg_id r.reply_registry ≡ some n =
        ap (λ j. get j r.reply_registry) at ∙ h in
      rw (found, msg_arrived, f)
        (
          get_elem?-set_self r.futures n (result d) f,
          ground (arith, get-remove d.msg_id k r.reply_registry, at),
          record {
            others =
                λ j g. own.others j (ground (arith, get-remove d.msg_id j r.reply_registry, g));
          },
        )

  arrive_all-pending :
      (ds : List WireData) (r : Replies)
      → IsOwn k n r
      → get k r.reply_registry ≡ some n
      → get_elem? r.futures n ≡ some pending
      → get_elem? (arrive_all ds r).futures n ≡ some (first_reply k ds)
  unfolding arrive_all
  arrive_all-pending [] r own h f = f
  arrive_all-pending (d ∷ ds) r own h f = elim (Bool-cases (d.msg_id == k)) [
    | inl e ↦
        let (set', none', own') = arrived-IsOwn d r own (ground (arith, e)) h f in
        rw e (arrive_all-done ds (msg_arrived d r) own' none' ∙ set')
    | inr e ↦
        let (same, kept, own') = arrived-other d r own (not-own k n d r own (ground (arith, e))) in
        rw e (arrive_all-pending ds (msg_arrived d r) own' (ground (arith, kept, h, e)) (same ∙ f))
  ]

below : (j n : ℕ) (d : Dict ℕ) → All (λ m. m < n) (values d) → get j d ≡ some n → ⊥
below j n [] b h = cc
below j n ((i, m) ∷ d) b h = ground (arith, below j n d b.1)

registered-own :
    (j k n : ℕ) (d : Dict ℕ) → All (λ m. m < n) (values d) → get j (put k n d) ≡ some n → j ≡ k
registered-own j k n d b h = elim (Bool-cases (k == j)) [
  | inl e ↦ ground (arith, e)
  | inr e ↦ absurd (below j n d b (ground (arith, get-put k j n d, h, e)))
]

-- Whatever messages come after a reply was registered, its future gets the first one with its id,
-- and no later one, and waits as long as there is none, if the futures that were registered before
-- are there; messages of other ids do not touch it.
pub register_reply_lem :
    (k : ℕ) (ds : List WireData) (r : Replies)
    → All (λ n. n < length r.futures) (values r.reply_registry)
    → get_elem? (arrive_all ds (register_reply k r).1).futures (register_reply k r).0
      ≡ some (first_reply k ds)
unfolding register_reply
register_reply_lem k ds r bound =
    arrive_all-pending k (length r.futures) ds (register_reply k r).1
      (record { others = λ j h. registered-own j k (length r.futures) r.reply_registry bound h })
      (ground (arith, get-put k k (length r.futures) r.reply_registry))
      (get_elem?-append_last r.futures pending)
