-- ===== src/Copy/Rows.antt =====
-- src/copy.rs: `rows` and the iterator `Rows`. Lines relates it to lines of text.
pub mod Whole
use rust_streamer_pgdb.Prelude.Loop.{Round, done, more, loop}
use rust_streamer_pgdb.Prelude.{
  first_index, ℕ, suc, ◌+◌, ◌-◌, ◌<◌, ◌≡◌, Option, none, some, List, [], ◌∷◌, ◌++◌, arith, length,
  take, drop, length-drop, last?, Bytes, Memchr, first_index-SplitsAt, ◌==◌, if◌then◌else◌,
  Option-cases, inl, inr, ◌∙◌, sym,
}

pub record Rows : Type 0 where
  pub rest : Bytes

abbrev pub rows : Bytes → Rows
rows chunk = record { rest = chunk }

abbrev pub remainder : Rows → Bytes
remainder r = r.rest

-- A trailing carriage return is cut off.
unfoldable pub strip_cr : Bytes → Bytes
strip_cr line = elim (last? line) [
  | none ↦ line
  | some c ↦ (if c == b'\r' then take (length line - 1) line else line)
]

abbrev pub at_newline : Option ℕ → Bytes → Option Bytes × Rows
at_newline none rest = (none, record { rest = rest })
at_newline (some nl) rest = (some (strip_cr (take nl rest)), record { rest = drop (suc nl) rest })

abbrev pub State : Type 0
State = List Bytes × Rows

-- One round of `for row in rows`, which keeps the rows so far.
abbrev pub push_row : List Bytes → Option Bytes × Rows → Round State State
push_row acc (none, r) = done (acc, r)
push_row acc (some line, r) = more (acc ++ line ∷ [], r)

at_newline_falls :
    (acc : List Bytes) (o : Option ℕ) (s : Bytes) (t : State)
    → first_index b'\n' s ≡ o
    → push_row acc (at_newline o s) ≡ more t
    → length t.1.rest < length s
at_newline_falls acc none s t e h = cc
at_newline_falls acc (some nl) s t e h =
    let hit = first_index-SplitsAt b'\n' s nl e in
    ground (arith, hit.within, length-drop (suc nl) s)

module _ ⦃m : Memchr⦄ where
  -- `Rows::next`
  unfoldable pub next : Rows → Option Bytes × Rows
  next r = at_newline (m.memchr b'\n' r.rest) r.rest

  unfoldable pub each_row : State → Round State State
  unfolding next
  each_row (acc, r) = push_row acc (next r)

  pub each_row_falls : (s t : State) → each_row s ≡ more t → length t.1.rest < length s.1.rest
  unfolding each_row
  each_row_falls (acc, r) t h =
      at_newline_falls acc _ r.rest t (sym (m.memchr_first b'\n' r.rest)) h

  -- All the rows of a chunk, and the iterator behind the last.
  unfoldable pub collect : Bytes → State
  unfolding each_row
  collect chunk = loop (λ (s : State). length s.1.rest) each_row each_row_falls ([], rows chunk)
