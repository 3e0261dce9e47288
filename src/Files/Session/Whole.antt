-- ===== src/Files/Session/Whole.antt =====
-- What the sender's files come to in the receiver's folder.
use mathlib.Core.List.{append_assoc}
use peer_connect.Prelude.{
  ℕ, ◌≤◌, false, Option, none, some, List, [], ◌∷◌, ◌++◌, ◌≡◌, refl, sym, ap, ◌∙◌, arith, ltb, ◌==◌,
  length, drop, All, take-append-length, drop-append-length,
}
use peer_connect.Avails.Bytes.{Bytes, unpack-pack}
use peer_connect.Avails.Wire.{frame, recv_int}
use peer_connect.Avails.Wire.Framing.{frame-parts, take-head, drop-head}
use peer_connect.Files.Names.{Name, exists, validatename}
use peer_connect.Files.Names.Unique.{validatename_lem}
use peer_connect.Files.Chunks.{send_actual_file, recv_file_contents}
use peer_connect.Files.Chunks.Transfer.{send_actual_file_lem}
use peer_connect.Files.Chunks.Roundtrip.{before, recv_file_contents-sent}
use peer_connect.Files.Session.{
  Item, Source, Folder, names, lookup, bind, send_contents, send_file_item, send_files,
  receive_single_file, recv_item, recv_file_once, recv_files,
}

pub bind-some :
    {A B : Type 0} (o : Option A) (f : A → Option B) {b : B}
    → bind o f ≡ some b
    → (a : A) × (o ≡ some a) × (f a ≡ some b)
bind-some none f h = absurd (ground (arith, h))
bind-some (some a) f h = (a, refl, h)

pub recv_int-frame :
    (d rest : Bytes) {f : Bytes}
    → frame d ≡ some f
    → recv_int 4 (f ++ rest) ≡ some (length d, d ++ rest)
unfolding recv_int
recv_int-frame d rest h =
    let (size, packed, whole) = frame-parts d h in
    let (unpacked, four) = unpack-pack 4 (length d) packed in
    rw
      (
        whole,
        append_assoc,
        take-head size (d ++ rest) four,
        drop-head size (d ++ rest) four,
        unpacked,
      )
      refl

lookup-none :
    (x : Name) (folder : Folder) → exists x (names folder) ≡ false → lookup x folder ≡ none
unfolding exists
lookup-none x [] h = refl
lookup-none x ((n, b) ∷ folder) h = ground (arith, h, lookup-none x folder)

-- the name that a file gets in a folder
abbrev pub name_in : Folder → Item → Name
name_in folder item = validatename item.stem item.suffix (names folder)

-- a file at the start of its transfer, with arrivals enough for its content
abbrev pub IsFresh : Source → List ℕ → Type 0
IsFresh s sizes =
    (s.item.file.seeked ≡ 0)
    × (s.item.file.size ≡ length s.content)
    × (1 ≤ s.item.file.size)
    × All (λ k. 1 ≤ k) sizes
    × (s.item.file.size ≤ length sizes)

-- every file is fresh and has its arrivals
abbrev pub AreFresh : List Source → List (List ℕ) → Type 0
AreFresh [] schedule = Unit
AreFresh (s ∷ sources) [] = ⊥
AreFresh (s ∷ sources) (sizes ∷ schedule) = IsFresh s sizes × AreFresh sources schedule

-- the folder when all files are stored, in their order
abbrev pub all_stored : Folder → List Source → Folder
all_stored folder [] = folder
all_stored folder (s ∷ sources) =
    all_stored (folder ++ (name_in folder s.item, s.content) ∷ []) sources

module _ (dumps : Item → Bytes) (loads : Bytes → Option Item) where
  receive_single_file_whole :
      (sizes : List ℕ) (folder : Folder) (rest : Bytes) (s : Source)
      → IsFresh s sizes
      → receive_single_file dumps loads sizes folder
          (drop s.item.file.seeked s.content ++ rest)
          s.item
        ≡ some (folder ++ (name_in folder s.item, s.content) ∷ [], rest)
  unfolding receive_single_file
  receive_single_file_whole sizes folder rest s (fresh, size, some_bytes, all, enough) =
      let name = name_in folder s.item in
      let absent : lookup name folder ≡ none =
        lookup-none name folder (validatename_lem s.item.stem s.item.suffix (names folder)).0 in
      let (r, done, disk, later, seeked, size') =
        recv_file_contents-sent sizes 0 s.content (drop s.item.file.seeked s.content ++ rest) rest
          s.item.file size (omega (arith, fresh)) refl all (omega (arith, enough)) in
      let start : before s.content s.item.file ≡ none = ground (arith, fresh) in
      let same : recv_file_contents sizes 0 none (drop s.item.file.seeked s.content ++ rest)
            s.item.file
          ≡ some r =
        ap
          (λ d.
            recv_file_contents sizes 0 d (drop s.item.file.seeked s.content ++ rest) s.item.file)
          (sym start)
        ∙ done in
      let ended : ltb r.file.seeked r.file.size ≡ false = ground (arith, seeked, size') in
      rw (absent, same, ended, disk, later) refl

  -- A file that arrives partly transferred cannot be received: its new name is free, so no file is
  -- there to go on with.
  pub receive_single_file_resumed :
      (sizes : List ℕ) (folder : Folder) (stream : Bytes) (item : Item)
      → 1 ≤ item.file.seeked
      → receive_single_file dumps loads sizes folder stream item ≡ none
  unfolding receive_single_file recv_file_contents
  receive_single_file_resumed sizes folder stream item h =
      let name = name_in folder item in
      let absent : lookup name folder ≡ none =
        lookup-none name folder (validatename_lem item.stem item.suffix (names folder)).0 in
      let later : (item.file.seeked == 0) ≡ false = ground (arith, h) in rw (absent, later) refl

  -- a file at the head of the stream
  recv_file_once_whole :
      (law : (item : Item) → loads (dumps item) ≡ some item) (sizes : List ℕ) (folder : Folder)
      (s : Source) (head contents later : Bytes)
      → IsFresh s sizes
      → send_file_item dumps loads s.item ≡ some head
      → send_contents s ≡ some contents
      → (packet : Bytes) × (head ≡ 1 ∷ packet)
        × (recv_file_once dumps loads sizes folder (packet ++ (contents ++ later))
            ≡ some (folder ++ (name_in folder s.item, s.content) ∷ [], later))
  unfolding send_file_item send_contents recv_file_once recv_item
  recv_file_once_whole law sizes folder s head contents later ok item_sent contents_sent =
      let (packet, framed, flagged) = bind-some (frame (dumps s.item)) _ item_sent in
      let d = dumps s.item in
      let (fresh, size, some_bytes, _, _) = ok in
      let (chunks, mapped, all_sent, _) =
        send_actual_file_lem 0 s.content s.item.file size (omega (arith, fresh)) some_bytes in
      let (chunks', mapped', whole) =
        bind-some (send_actual_file 0 s.content s.item.file) _ contents_sent in
      let sent : contents ≡ drop s.item.file.seeked s.content =
        ground (arith, mapped, mapped', all_sent, whole) in
      let nonempty : (s.item.file.size == 0) ≡ false = ground (arith, ok.2) in
      let rest = contents ++ later in
      (
        packet,
        ground (arith, flagged),
        rw
            (
              recv_int-frame d rest framed,
              take-append-length d rest,
              law s.item,
              drop-append-length d rest,
              nonempty,
              sent,
            )
            (receive_single_file_whole sizes folder later s ok),
      )

  recv_files_next :
      (sizes : List ℕ) (schedule : List (List ℕ)) (folder : Folder)
      (head packet contents later : Bytes) (folder' result : Folder) {stream : Bytes}
      → stream ≡ head ++ (contents ++ later)
      → head ≡ 1 ∷ packet
      → recv_file_once dumps loads sizes folder (packet ++ (contents ++ later))
        ≡ some (folder', later)
      → recv_files dumps loads schedule folder' later ≡ some result
      → recv_files dumps loads (sizes ∷ schedule) folder stream ≡ some result
  unfolding recv_files
  recv_files_next sizes schedule folder head packet contents later folder' result e flagged once
        ih =
      rw (e, flagged, once) ih

  -- What `send_files` sends is received by `recv_files` as all the files, each whole, in order and
  -- under a name that no file before it has, whatever the sizes in which the contents arrive, if
  -- the items can be loaded from what they are dumped to, and each file starts anew, is not empty
  -- and has arrivals enough.
  pub recv_files-send_files :
      (law : (item : Item) → loads (dumps item) ≡ some item) (sources : List Source)
      (schedule : List (List ℕ)) (folder : Folder) {stream : Bytes}
      → AreFresh sources schedule
      → send_files dumps loads sources ≡ some stream
      → recv_files dumps loads schedule folder stream ≡ some (all_stored folder sources)
  unfolding send_files recv_files
  recv_files-send_files law [] schedule folder {stream} ok sent =
      let ended : stream ≡ 0 ∷ [] = ground (arith, sent) in rw ended (end_flag schedule)
    where
      end_flag : (sch : List (List ℕ)) → recv_files dumps loads sch folder (0 ∷ []) ≡ some folder
      end_flag [] = refl
      end_flag (x ∷ sch) = refl
  recv_files-send_files law (s ∷ sources) [] folder ok sent = absurd ok
  recv_files-send_files law (s ∷ sources) (sizes ∷ schedule) folder {stream} ok sent =
      let (head, item_sent, sent1) = bind-some (send_file_item dumps loads s.item) _ sent in
      let (contents, contents_sent, sent2) = bind-some (send_contents s) _ sent1 in
      let (later, later_sent, whole) = bind-some (send_files dumps loads sources) _ sent2 in
      let (packet, flagged, received) =
        recv_file_once_whole law sizes folder s head contents later ok.0 item_sent contents_sent in
      let ih =
        recv_files-send_files law sources schedule
          (folder ++ (name_in folder s.item, s.content) ∷ []) {stream = later} ok.1 later_sent in
      recv_files_next sizes schedule folder head packet contents later
        (folder ++ (name_in folder s.item, s.content) ∷ []) (all_stored folder (s ∷ sources))
        {stream = stream} (ground (arith, whole)) flagged received ih
