-- ===== src/Avails/Connect/Flow.antt =====
-- What a receiver hands over.
use peer_connect.Prelude.{
  ℕ, min, true, some, List, [], ◌∷◌, ◌++◌, ◌≡◌, refl, ap, ◌∙◌, take, drop, take-append-drop,
}
use mathlib.Core.List.{append_assoc}
use peer_connect.Avails.Bytes.{Bytes}
use peer_connect.Avails.Connect.{update_throughput, End, pause, resume, recv, Call, recv_all}

abbrev received : ℕ → ℕ → ℕ → ℕ → End → End
received w now arrived nbytes e = record e {
  stream = drop (min arrived nbytes) e.stream;
  measure = update_throughput w nbytes now e.measure;
}

recv-parts :
    (w now arrived nbytes : ℕ) (e : End)
    → e.limiter ≡ true
    → (got : Bytes) × (e' : End) × (recv w now arrived nbytes e ≡ some (got, e'))
      × (got ++ e'.stream ≡ e.stream)
      × (e'.limiter ≡ true)
unfolding recv
recv-parts w now arrived nbytes e h = (
  take (min arrived nbytes) e.stream,
  received w now arrived nbytes e,
  rw h refl,
  take-append-drop (min arrived nbytes) e.stream,
  h,
)

recv_all-stream :
    (w : ℕ) (cs : List Call) (e : End)
    → e.limiter ≡ true
    → (recv_all w cs e).0 ++ (recv_all w cs e).1.stream ≡ e.stream
unfolding recv_all
recv_all-stream w [] e h = refl
recv_all-stream w (c ∷ cs) e h =
    let (got, e', found, whole, h') = recv-parts w c.now c.arrived c.nbytes e h in
    rw (found, recv_all)
      (append_assoc got _ _ ∙ (ap (◌++◌ got) (recv_all-stream w cs e' h') ∙ whole))

paused : (w : ℕ) (cs : List Call) (e : End) → recv_all w cs (pause e) ≡ ([], pause e)
unfolding pause recv_all recv
paused w [] e = refl
paused w (c ∷ cs) e = refl

-- A receiver hands over the bytes of its socket in order and loses none, however they arrive, and a
-- paused one hands over nothing and leaves them all.
pub recv_all_lem :
    (w : ℕ) (cs : List Call) (e : End)
    → ((recv_all w cs (resume e)).0 ++ (recv_all w cs (resume e)).1.stream ≡ e.stream)
      × (recv_all w cs (pause e) ≡ ([], pause e))
unfolding resume pause recv_all recv
recv_all_lem w cs e = (recv_all-stream w cs (resume e) refl, paused w cs e)
