-- ===== src/Files/Chunks/Size.antt =====
-- The bounds of the chunk size.
use peer_connect.Prelude.{ℕ, ◌%◌, ◌≤◌, ◌≡◌, arith}
use peer_connect.Files.Chunks.{calculate_chunk_size, min_size, max_size}

-- A chunk size is a multiple of 1024 between its two bounds.
pub calculate_chunk_size_bounds :
    (file_size : ℕ)
    → (min_size ≤ calculate_chunk_size file_size)
      × (calculate_chunk_size file_size ≤ max_size)
      × (calculate_chunk_size file_size % 1024 ≡ 0)
unfolding calculate_chunk_size
calculate_chunk_size_bounds file_size = ground arith

-- A larger file has no smaller chunks.
pub calculate_chunk_size_mono : (a b : ℕ) → a ≤ b → calculate_chunk_size a ≤ calculate_chunk_size b
unfolding calculate_chunk_size
calculate_chunk_size_mono a b h = ground arith
