-- ===== src/Core/Dispatch/Groups.antt =====
-- Which dispatchers survive a message that they do not know.
use peer_connect.Prelude.{
  ℕ, true, false, none, some, List, [], ◌∷◌, ◌++◌, ◌≡◌, ◌≢◌, refl, sym, ap, ◌∙◌, inl, inr, arith,
  Dict, get, Option-cases, Bool-cases,
}
use mathlib.Core.List.{append_assoc, append-nil}
use peer_connect.Core.Dispatch.{
  Ending, Kind, requests, discover, stream, connections, gossiping, Dispatcher, RequestEvent,
  key_of, on_missing, guarded, fails, call, call_all,
}

-- the calls that a registry makes of the events, in their order
abbrev pub served : Dict ℕ → List RequestEvent → List (ℕ × RequestEvent)
served registry [] = []
served registry (e ∷ es) = elim (get (key_of requests e) registry) [
  | none ↦ served registry es
  | some h ↦ (h, e) ∷ served registry es
]

served-missing :
    (r : Dict ℕ) (e : RequestEvent) (es : List RequestEvent)
    → get (key_of requests e) r ≡ none
    → served r (e ∷ es) ≡ served r es
served-missing r e es u = rw (u, served) refl

served-known :
    (r : Dict ℕ) (e : RequestEvent) (es : List RequestEvent) {h : ℕ}
    → get (key_of requests e) r ≡ some h
    → served r (e ∷ es) ≡ (h, e) ∷ served r es
served-known r e es u = rw (u, served) refl

missing_fails : (k : Kind) → k ≢ requests → fails (on_missing k) ≡ true
missing_fails requests h = absurd (h refl)
missing_fails discover h = refl
missing_fails stream h = refl
missing_fails connections h = refl
missing_fails gossiping h = refl

guarded_returns : (k : Kind) (end : Ending) → k ≡ requests → fails (guarded k end) ≡ false
guarded_returns requests end h = refl
guarded_returns discover end h = cc
guarded_returns stream end h = cc
guarded_returns connections end h = cc
guarded_returns gossiping end h = cc

missing_returns : (k : Kind) → k ≡ requests → fails (on_missing k) ≡ false
missing_returns requests h = refl
missing_returns discover h = cc
missing_returns stream h = cc
missing_returns connections h = cc
missing_returns gossiping h = cc

module _ (run : ℕ → RequestEvent → Ending) where
  call_unknown :
      (e : RequestEvent) (d : Dispatcher)
      → d.kind ≢ requests
      → get (key_of d.kind e) d.registry ≡ none
      → ((call run e d).1.aborting ≡ true) × ((call run e d).1.called ≡ d.called)
  unfolding call
  call_unknown e d k u = elim (Bool-cases d.aborting) [
    | inl a ↦ ground (arith, a)
    | inr a ↦ ground (arith, a, u, missing_fails d.kind k)
  ]

  call-aborting : (e : RequestEvent) (d : Dispatcher) → d.aborting ≡ true → (call run e d).1 ≡ d
  unfolding call
  call-aborting e d a = ground (arith, a)

  call_all-aborting :
      (es : List RequestEvent) (d : Dispatcher) → d.aborting ≡ true → call_all run es d ≡ d
  unfolding call_all
  call_all-aborting [] d a = refl
  call_all-aborting (e ∷ es) d a = ground (arith, call-aborting e d a, call_all-aborting es d a)

  call-served :
      (e : RequestEvent) (d : Dispatcher)
      → d.kind ≡ requests
      → d.aborting ≡ false
      → ((call run e d).1.aborting ≡ false)
        × ((call run e d).1.kind ≡ requests)
        × ((call run e d).1.registry ≡ d.registry)
        × ((call run e d).1.called ≡ d.called ++ served d.registry (e ∷ []))
  unfolding call
  call-served e d k a =
      let same : key_of d.kind e ≡ key_of requests e = ap (λ c. key_of c e) k in
      elim (Option-cases (get (key_of d.kind e) d.registry)) [
        | inl u ↦
            let absent : get (key_of requests e) d.registry ≡ none = rw (← same) u in
            rw (served-missing d.registry e [] absent)
              (ground (arith, a, u, missing_returns d.kind k, append-nil d.called))
        | inr (h, u) ↦
            let present : get (key_of requests e) d.registry ≡ some h = rw (← same) u in
            rw (served-known d.registry e [] present)
              (ground (arith, a, u, guarded_returns d.kind (run h e) k))
      ]

  served-append :
      (r : Dict ℕ) (e : RequestEvent) (es : List RequestEvent)
      → served r (e ∷ []) ++ served r es ≡ served r (e ∷ es)
  served-append r e es = elim (Option-cases (get (key_of requests e) r)) [
    | inl u ↦ rw (u, served) refl
    | inr (h, u) ↦ rw (u, served) refl
  ]

  call_all-served :
      (es : List RequestEvent) (d : Dispatcher)
      → d.kind ≡ requests
      → d.aborting ≡ false
      → ((call_all run es d).aborting ≡ false)
        × ((call_all run es d).called ≡ d.called ++ served d.registry es)
  unfolding call_all
  call_all-served [] d k a = (a, sym (append-nil d.called))
  call_all-served (e ∷ es) d k a =
      let (a', k', r', c') = call-served e d k a in
      let (b, c) = call_all-served es (call run e d).1 k' a' in
      (
        b,
        c
            ∙ rw (c', r')
                (append_assoc d.called (served d.registry (e ∷ [])) (served d.registry es)
                  ∙ ap (◌++◌ d.called) (served-append d.registry e es)),
      )

-- A dispatcher of requests that is not aborting serves every event that it has a handler for, in
-- order, whatever other events come and however its handlers end, and does not abort. A dispatcher
-- of another kind serves no event any more from an event on that it has no handler for.
pub call_all_lem :
    (run : ℕ → RequestEvent → Ending) (e : RequestEvent) (es : List RequestEvent)
    (d d' : Dispatcher)
    → d.kind ≡ requests
    → d.aborting ≡ false
    → d'.kind ≢ requests
    → get (key_of d'.kind e) d'.registry ≡ none
    → ((call_all run es d).aborting ≡ false)
      × ((call_all run es d).called ≡ d.called ++ served d.registry es)
      × ((call_all run (e ∷ es) d').called ≡ d'.called)
unfolding call_all
call_all_lem run e es d d' k a k' u =
    let (b, c) = call_all-served run es d k a in
    let (stopped, kept) = call_unknown run e d' k' u in
    (b, c, ap (λ v. v.called) (call_all-aborting run es (call run e d').1 stopped) ∙ kept)
