-- ===== src/Io/Writer.antt =====
-- What `BufWriter::write_all` leaves in the buffer.
use tss_libp2p.Prelude.{ℕ, ◌+◌, ◌<◌, ◌≤◌, ◌≡◌, refl, List, [], ◌∷◌, ◌++◌, arith, length}
use tss_libp2p.Io.{BufWriter, write_all, buf_capacity, buf_capacity_lem}

-- An input that leaves room is appended to the buffer, and the vector receives nothing.
pub write_all_fits :
    (bs : List ℕ) (w : BufWriter)
    → length w.buffer + length bs < buf_capacity
    → write_all bs w ≡ record w { buffer = w.buffer ++ bs }
unfolding write_all
write_all_fits bs w h = ground arith

nil_of_length : (bs : List ℕ) → length bs ≡ 0 → bs ≡ []
nil_of_length [] h = refl
nil_of_length (b ∷ bs) h = absurd (omega arith)

-- An input as large as the buffer goes past it and leaves it empty.
pub write_all_large :
    (bs : List ℕ) (w : BufWriter) → buf_capacity ≤ length bs → (write_all bs w).buffer ≡ []
unfolding write_all
write_all_large bs w h = ground (arith, buf_capacity_lem, nil_of_length w.buffer)
