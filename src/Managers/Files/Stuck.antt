-- ===== src/Managers/Files/Stuck.antt =====
-- After which outcome a peer can be sent to again, and which transfers can be paused.
use peer_connect.Prelude.{
  ℕ, Bool, true, false, Option, none, some, List, [], ◌∷◌, ◌≡◌, ◌≢◌, refl, sym, ap, ◌∙◌, inl, inr,
  arith, get, Bool-cases, ◌++◌, if◌then◌else◌, Dict, put, add, discard, get-put,
}
use peer_connect.Otm.Tree.{PeerId}
use peer_connect.Avails.Books.{
  Books, add_to_current, add_to_completed, add_to_continued, get_transfer, check_running, at, touch,
}
use peer_connect.Avails.Books.Laws.{get_transfer_lem}
use peer_connect.Files.States.{
  TransferState, preparing, connecting, sending, receiving, paused, aborting, completed,
}
use peer_connect.Managers.Files.{
  Manager, Outcome, unreachable, state_after, send_finalize, Sent, not_yielded, not_attached, ended,
  can_attach, send_new, send_files_to_peer, directory_connection, pause_transfer, pause_found,
}

-- the states that take a transfer off the running ones
abbrev pub settles : TransferState → Bool
settles completed = true
settles aborting = true
settles paused = true
settles connecting = true
settles preparing = false
settles sending = false
settles receiving = false

check-eq :
    (p : PeerId) (b : Books)
    → at p b.current ≡ []
    → check_running p b ≡ (none, record b { current = touch p b.current })
unfolding check_running
check-eq p b h = rw (h, check_running) refl

check-some :
    (p : PeerId) (b : Books) (h : ℕ)
    → at p b.current ≡ h ∷ []
    → check_running p b ≡ (some h, record b { current = touch p b.current })
unfolding check_running
check-some p b h e = rw (e, check_running) refl

at-put : (p : PeerId) (v : List ℕ) (d : Dict (List ℕ)) → at p (put p v d) ≡ v
at-put p v d = ground (arith, get-put p p v d)

discard_only : (h : ℕ) → discard h (h ∷ []) ≡ []
discard_only h = ground arith

at-discard :
    (p : PeerId) (h : ℕ) (d : Dict (List ℕ))
    → at p d ≡ h ∷ []
    → at p (put p (discard h (at p d)) d) ≡ []
at-discard p h d e = at-put p (discard h (at p d)) d ∙ (ap (discard h) e ∙ discard_only h)

finalize-current :
    (p : PeerId) (h : ℕ) (s : TransferState) (b : Books)
    → at p b.current ≡ h ∷ []
    → at p (send_finalize p h s b).current ≡ (if settles s then [] else h ∷ [])
unfolding send_finalize add_to_completed add_to_continued
finalize-current p h completed b e = at-discard p h b.current e
finalize-current p h aborting b e = at-discard p h b.current e
finalize-current p h paused b e = at-discard p h b.current e
finalize-current p h connecting b e = at-discard p h b.current e
finalize-current p h preparing b e = e
finalize-current p h sending b e = e
finalize-current p h receiving b e = e

added :
    (p : PeerId) (h : ℕ) (b : Books)
    → at p b.current ≡ []
    → at p (add_to_current p h b).current ≡ h ∷ []
unfolding add_to_current
added p h b e = at-put p (add h (at p b.current)) b.current ∙ ap (add h) e

abbrev touched : PeerId → Manager → Manager
touched p m = record m { books = record m.books { current = touch p m.books.current } }

send-eq :
    (p : PeerId) (o : Outcome) (m : Manager)
    → at p m.books.current ≡ []
    → send_files_to_peer p o m ≡ send_new p o (touched p m)
unfolding send_files_to_peer
send-eq p o m e = rw (check-eq p m.books e) refl

-- with a handle that runs, whose state is known
send-busy :
    (p : PeerId) (o : Outcome) (m : Manager) (h : ℕ) (s : TransferState)
    → at p m.books.current ≡ h ∷ []
    → get h m.states ≡ some s
    → ((send_files_to_peer p o m).0 ≡ (if can_attach (some s) then not_yielded else not_attached))
      × ((send_files_to_peer p o m).1.attached
          ≡ (if can_attach (some s) then m.attached ++ h ∷ [] else m.attached))
unfolding send_files_to_peer
send-busy p o m h s e known =
    rw (check-some p m.books h e, known)
      (elim (Bool-cases (can_attach (some s))) [
        | inl c ↦ rw c (refl, refl)
        | inr c ↦ rw c (refl, refl)
      ])

send_new-current :
    (p : PeerId) (o : Outcome) (m : Manager)
    → at p m.books.current ≡ []
    → at p (send_new p o (touched p m)).1.books.current
      ≡ (if settles (state_after o) then [] else m.next_id ∷ [])
unfolding send_new
send_new-current p o m e =
    finalize-current p m.next_id (state_after o) (add_to_current p m.next_id (touched p m).books)
      (added p m.next_id (touched p m).books (at-put p (at p m.books.current) m.books.current ∙ e))

send_new-ended : (p : PeerId) (o : Outcome) (m : Manager) → (send_new p o m).0 ≡ ended o
unfolding send_new
send_new-ended p o m = refl

send_new-state :
    (p : PeerId) (o : Outcome) (m : Manager)
    → get m.next_id (send_new p o m).1.states ≡ some (state_after o)
unfolding send_new
send_new-state p o m = ground (arith, get-put m.next_id m.next_id (state_after o) m.states)

-- how the next transfer ends after one that has left a state
abbrev pub next_ending : TransferState → Outcome → Sent
next_ending s o' =
    if settles s then ended o' else if can_attach (some s) then not_yielded else not_attached

send-next :
    (s : TransferState) (p : PeerId) (o : Outcome) (m : Manager) (h : ℕ)
    → at p m.books.current ≡ (if settles s then [] else h ∷ [])
    → get h m.states ≡ some s
    → (send_files_to_peer p o m).0 ≡ next_ending s o
send-next s p o m h e known = elim (Bool-cases (settles s)) [
  | inl free ↦
      let none_runs : at p m.books.current ≡ [] = e ∙ ap (λ b. if b then [] else h ∷ []) free in
      rw free (ap (λ r. r.0) (send-eq p o m none_runs) ∙ send_new-ended p o (touched p m))
  | inr busy ↦
      let one_runs : at p m.books.current ≡ h ∷ [] = e ∙ ap (λ b. if b then [] else h ∷ []) busy in
      rw busy ((send-busy p o m h s one_runs known).0)
]

again :
    (p : PeerId) (o o' : Outcome) (m : Manager)
    → at p m.books.current ≡ []
    → (send_files_to_peer p o' (send_files_to_peer p o m).1).0 ≡ next_ending (state_after o) o'
again p o o' m e =
    ap (λ r. (send_files_to_peer p o' r.1).0) (send-eq p o m e)
    ∙ send-next (state_after o) p o' (send_new p o (touched p m)).1 m.next_id
        (send_new-current p o m e) (send_new-state p o (touched p m))

unreached_state : state_after unreachable ≡ preparing
unfolding state_after
unreached_state = refl

unreached_attached :
    (p : PeerId) (o' : Outcome) (m : Manager)
    → at p m.books.current ≡ []
    → (send_files_to_peer p o' (send_files_to_peer p unreachable m).1).1.attached
      ≡ (send_files_to_peer p unreachable m).1.attached
unreached_attached p o' m e =
    let later = (send_new p unreachable (touched p m)).1 in
    let runs : at p later.books.current ≡ m.next_id ∷ [] =
      send_new-current p unreachable m e
      ∙ ap (λ s. if settles s then [] else m.next_id ∷ []) unreached_state in
    let known : get m.next_id later.states ≡ some preparing =
      send_new-state p unreachable (touched p m) ∙ ap some unreached_state in
    rw (send-eq p unreachable m e) ((send-busy p o' later m.next_id preparing runs known).1)

-- A peer that no transfer runs for can be sent to. Afterwards it can be sent to again exactly if the
-- first transfer has left a state that `_send_finalize` books. After a transfer that ends while it still
-- sends, the next one fails with a RuntimeError. After a peer that cannot be reached the next one fails
-- as `attach_files` raises, and no files are attached.
pub send_files_to_peer_lem :
    (p : PeerId) (o o' : Outcome) (m : Manager)
    → at p m.books.current ≡ []
    → ((send_files_to_peer p o m).0 ≡ ended o)
      × ((send_files_to_peer p o' (send_files_to_peer p o m).1).0 ≡ next_ending (state_after o) o')
      × ((send_files_to_peer p o' (send_files_to_peer p unreachable m).1).0 ≡ not_attached)
      × ((send_files_to_peer p o' (send_files_to_peer p unreachable m).1).1.attached
          ≡ (send_files_to_peer p unreachable m).1.attached)
send_files_to_peer_lem p o o' m e = (
  ap (λ r. r.0) (send-eq p o m e) ∙ send_new-ended p o (touched p m),
  again p o o' m e,
  again p unreachable o' m e ∙ ap (λ s. next_ending s o') unreached_state,
  unreached_attached p o' m e,
)

pause_found-none : (p : PeerId) (r : Option ℕ × Books) → r.0 ≡ none → (pause_found p r).0 ≡ false
pause_found-none p (none, b) e = refl
pause_found-none p (some h, b) e = cc

at-put_other : (p q : ℕ) (v : List ℕ) (d : Dict (List ℕ)) → q ≢ p → at p (put q v d) ≡ at p d
at-put_other p q v d ne = ground (arith, get-put q p v d, ne)

-- the sets of other peers
record SameAt (p : PeerId) (b b' : Books) : Type 0 where
  running : at p b'.current ≡ at p b.current
  done : at p b'.completed ≡ at p b.completed
  resumable : at p b'.continued ≡ at p b.continued

directory-SameAt :
    (p transfer_id h : ℕ) (raised : Bool) (b : Books)
    → transfer_id ≢ p
    → SameAt p b (directory_connection transfer_id h raised b)
unfolding directory_connection add_to_current add_to_completed
directory-SameAt p q h true b ne = record {
  running = at-put_other p q _ b.current ne;
  done = refl;
  resumable = at-put_other p q _ b.continued ne;
}
directory-SameAt p q h false b ne = record {
  running = at-put_other p q _ (put q _ b.current) ne ∙ at-put_other p q _ b.current ne;
  done = at-put_other p q _ b.completed ne;
  resumable = at-put_other p q _ (put q _ b.continued) ne ∙ at-put_other p q _ b.continued ne;
}

directory-absent :
    (p transfer_id h : ℕ) (raised : Bool) (b : Books)
    → transfer_id ≢ p
    → (get_transfer p h b).0 ≡ none
    → (get_transfer p h (directory_connection transfer_id h raised b)).0 ≡ none
directory-absent p q h raised b ne absent =
    let same = directory-SameAt p q h raised b ne in
    (get_transfer_lem p p h (directory_connection q h raised b)).0
    ∙ (rw (same.running, same.done, same.resumable) (sym (get_transfer_lem p p h b).0) ∙ absent)

-- A directory that is received is booked under the id of its transfer. So it cannot be paused by its
-- peer: `pause_transfer` raises a ValueError, if the handle was in no set of the peer before.
pub pause_transfer-directory :
    (p : PeerId) (transfer_id h : ℕ) (raised : Bool) (b : Books)
    → transfer_id ≢ p
    → (get_transfer p h b).0 ≡ none
    → (pause_transfer p h (directory_connection transfer_id h raised b)).0 ≡ false
unfolding pause_transfer get_transfer
pause_transfer-directory p transfer_id h raised b ne absent =
    pause_found-none p (get_transfer p h (directory_connection transfer_id h raised b))
      (directory-absent p transfer_id h raised b ne absent)
