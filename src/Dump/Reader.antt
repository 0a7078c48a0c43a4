-- ===== src/Dump/Reader.antt =====
-- src/dump.rs: the parameter `R: Read`. What implements it (a file, a decompressor, an object
-- store) is not part of this module: it is a parameter, with the contract that the documentation of
-- `std::io::Read` gives for `read`.
use rust_streamer_pgdb.Prelude.{
  refl, take-append-drop, zero, ◌∷◌, length-take, arith, [], ◌<◌, drop, suc, ◌++◌, min, ◌≤◌, take,
  length, ◌≡◌, Bytes, ℕ,
}
use rust_streamer_pgdb.Error.{ok, Result}

-- `unread` is what the reader has yet to deliver.
pub record Reader (R : Type 0) : Type 0 where
  pub read : R → ℕ → Result Bytes × R
  pub unread : R → Bytes
  -- A read delivers at most as many bytes as there is room for, the next of the stream.
  pub read_delivers :
      (r r' : R) (n : ℕ) (b : Bytes)
      → read r n ≡ (ok b, r')
      → (length b ≤ n) × (unread r ≡ b ++ unread r')
  -- With room for a byte, nothing delivered means the end of the stream.
  pub read_end : (r r' : R) (n : ℕ) → 0 < n → read r n ≡ (ok [], r') → unread r ≡ []

-- A stream in memory that delivers at most `step + 1` bytes at once.
abbrev pub Memory : Type 0
Memory = Bytes

abbrev pub memory_read : ℕ → Memory → ℕ → Result Bytes × Memory
memory_read step s n = (ok (take (min n (suc step)) s), drop (min n (suc step)) s)

pub memory_read_delivers :
    (k : ℕ) (s r' : Memory) (n : ℕ) (b : Bytes)
    → k ≤ n
    → ◌≡◌ {A = Result Bytes × Memory} (ok (take k s), drop k s) (ok b, r')
    → (length b ≤ n) × (s ≡ b ++ r')
memory_read_delivers k s r' n b le h = ground (arith, length-take k s, take-append-drop k s)

pub memory_read_end :
    (k : ℕ) (s r' : Memory)
    → 0 < k
    → ◌≡◌ {A = Result Bytes × Memory} (ok (take k s), drop k s) (ok [], r')
    → s ≡ []
memory_read_end zero s r' pos h = absurd (omega arith)
memory_read_end (suc k) [] r' pos h = refl
memory_read_end (suc k) (x ∷ s) r' pos h = cc

abbrev pub memory_reader : ℕ → Reader Memory
memory_reader step = record {
  read = memory_read step;
  unread = λ s. s;
  read_delivers = λ s r' n b h. memory_read_delivers (min n (suc step)) s r' n b (omega arith) h;
  read_end = λ s r' n pos h. memory_read_end (min n (suc step)) s r' (omega arith) h;
}
