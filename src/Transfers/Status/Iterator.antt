-- ===== src/Transfers/Status/Iterator.antt =====
-- What the iterator of statuses yields.
use peer_connect.Prelude.{ℕ, Bool, Option, none, some, List, [], ◌∷◌, ◌≡◌, refl, ◌∙◌, arith}
use peer_connect.Transfers.Status.{
  Status, update_status, should_yield, StatusIterator, update_iterator, update_by, unawaited,
  update_all, and_then, stop, waits, ends, raises, anext,
}

unawaited-queue :
    (o : Option (Bool × Status)) (it it' : StatusIterator)
    → unawaited o it ≡ some it'
    → it'.queue ≡ it.queue
unawaited-queue none it it' h = cc
unawaited-queue (some (b, s)) it it' h = ground (arith, h)

update_by-queue :
    (o : Option Status) (it it' : StatusIterator) → update_by o it ≡ some it' → it'.queue ≡ it.queue
update_by-queue none it it' h = cc
update_by-queue (some s) it it' h = unawaited-queue (should_yield s) it it' h

update_iterator-queue :
    (n : ℕ) (it it' : StatusIterator) → update_iterator n it ≡ some it' → it'.queue ≡ it.queue
unfolding update_iterator
update_iterator-queue n it it' h = update_by-queue (update_status n it.base) it it' h

and_then-queue :
    (o : Option StatusIterator) (f : StatusIterator → Option StatusIterator)
    (it it' : StatusIterator)
    → ((v : StatusIterator) → o ≡ some v → v.queue ≡ it.queue)
    → ((v : StatusIterator) → f v ≡ some it' → it'.queue ≡ v.queue)
    → and_then o f ≡ some it'
    → it'.queue ≡ it.queue
and_then-queue none f it it' one rest h = cc
and_then-queue (some v) f it it' one rest h = rest v h ∙ one v refl

update_all-queue :
    (ns : List ℕ) (it it' : StatusIterator) → update_all ns it ≡ some it' → it'.queue ≡ it.queue
unfolding update_all
update_all-queue [] it it' h = ground (arith, h)
update_all-queue (n ∷ ns) it it' h =
    and_then-queue (update_iterator n it) (update_all ns) it it'
      (λ v e. update_iterator-queue n it v e) (λ v e. update_all-queue ns v it' e) h

-- The iterator of statuses yields none of them: however often the status was updated, the first thing
-- that comes of it is its stop, since `put` is called and not awaited.
pub anext-update_all :
    (ns : List ℕ) (e : ℕ) (it it' : StatusIterator)
    → it.queue ≡ []
    → update_all ns it ≡ some it'
    → (anext it' ≡ waits) × (anext (stop none it') ≡ ends) × (anext (stop (some e) it') ≡ raises e)
unfolding anext stop
anext-update_all ns e it it' empty h =
    let same : it'.queue ≡ [] = update_all-queue ns it it' h ∙ empty in rw same (refl, refl, refl)
