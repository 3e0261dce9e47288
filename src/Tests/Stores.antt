-- ===== src/Tests/Stores.antt =====
-- The theorems on the book keeper and on the socket cache at a few transfers and sockets.
use peer_connect.Prelude.{true, false, none, some, [], ◌∷◌, ◌≡◌, refl, arith, get}
use peer_connect.Avails.Books.{
  Books, add_to_continued, get_transfer, stop_all_files, to_current, to_continued, stopped,
  apply_all,
}
use peer_connect.Avails.Books.Laws.{IsKept, apply_all-IsKept, stop_all_files_lem}
use peer_connect.Avails.Cache.{Cache, get_socket, added, got, use_all}
use peer_connect.Avails.Cache.Bounded.{IsBounded, use_all-IsBounded}
use peer_connect.Avails.Cache.Recent.{additions, get_socket-additions}

abbrev books : Books
books = record {
  continued = (1, 7 ∷ []) ∷ [];
  scheduled = [];
  completed = [];
  current = (1, 8 ∷ 9 ∷ []) ∷ [];
}

books-IsKept : IsKept books
books-IsKept = record { apart = λ q x h. ground arith; peers = ground arith }

apply_all-IsKept_example :
    IsKept (apply_all (to_continued 1 8 ∷ to_current 2 5 ∷ stopped ∷ []) books)
apply_all-IsKept_example =
    apply_all-IsKept (to_continued 1 8 ∷ to_current 2 5 ∷ stopped ∷ []) books books-IsKept

-- nothing runs
abbrev idle : Books
idle = record {
  continued = (1, 7 ∷ []) ∷ [];
  scheduled = [];
  completed = [];
  current = (1, []) ∷ [];
}

idle-IsKept : IsKept idle
idle-IsKept = record { apart = λ q x h. ground arith; peers = ground arith }

stop_all_files_lem_example :
    (stop_all_files books ≡ (false, books))
    × ((stop_all_files (add_to_continued 1 5 idle)).0 ≡ true)
    × ((get_transfer 1 5 (add_to_continued 1 5 idle)).0 ≡ some 5)
    × ((get_transfer 1 5 (stop_all_files (add_to_continued 1 5 idle)).1).0 ≡ none)
stop_all_files_lem_example = stop_all_files_lem 1 5 8 (9 ∷ []) idle books refl idle-IsKept refl refl

abbrev cache : Cache
cache = record { socket_cache = (1, 51) ∷ (2, 52) ∷ []; max_limit = 2 }

cache-IsBounded : IsBounded cache
cache-IsBounded = record { some_room = omega arith; bound = omega arith; peers = ground arith }

use_all-IsBounded_example : IsBounded (use_all (added 3 53 ∷ got 2 ∷ added 2 54 ∷ []) cache)
use_all-IsBounded_example =
    use_all-IsBounded (added 3 53 ∷ got 2 ∷ added 2 54 ∷ []) cache cache-IsBounded

got_1 : (get_socket 1 cache).0 ≡ some 51
unfolding get_socket
got_1 = refl

get_socket-additions_example :
    get 1 (use_all (additions ((3, 53) ∷ [])) (get_socket 1 cache).1).socket_cache ≡ some 51
get_socket-additions_example =
    get_socket-additions 1 51 ((3, 53) ∷ []) cache got_1 refl (omega arith)
