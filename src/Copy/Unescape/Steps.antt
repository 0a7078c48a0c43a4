-- ===== src/Copy/Unescape/Steps.antt =====
-- src/copy.rs: `Field::unescape_into` copies whole runs between backslashes. Its three equations
-- byte by byte, which are PostgreSQL's description of the format.
use mathlib.Core.Option
use rust_streamer_pgdb.Copy.Unescape.{
  escape_at-length, resume, after_backslash, at_backslash, round, round_falls, unescape, escape_at,
}
use rust_streamer_pgdb.Prelude.Loop.{loop_done, loop_more, loop_same}
use rust_streamer_pgdb.Prelude.{
  zero, inr, ==_iff, inl, ◌==◌, Bool-cases, ◌<◌, length, append-nil, arith, sym, append_assoc, suc,
  ◌∙◌, ap, Option, first_index, none, some, refl, ◌++◌, ◌≡◌, [], ◌≢◌, ◌∷◌, Bytes, ℕ, Memchr,
}
use rust_streamer_pgdb.Error.{Result, truncated_escape, ◌>>=◌, ok, err}

first_index_other :
    (b : ℕ) (s : Bytes)
    → b ≢ b'\\'
    → first_index b'\\' (b ∷ s) ≡ Option.map suc (first_index b'\\' s)
unfolding first_index
first_index_other b s h = ground arith

-- A longer run in front of the same backslash.
at_backslash_longer :
    (o : Option ℕ) (b : ℕ) (s out : Bytes)
    → at_backslash (Option.map suc o) (b ∷ s) out ≡ at_backslash o s (out ++ b ∷ [])
unfolding at_backslash
at_backslash_longer none b s out = rw append_assoc
at_backslash_longer (some off) b s out = rw append_assoc

module _ ⦃m : Memchr⦄ where
  round_found :
      (b : ℕ) (s out : Bytes) (o : Option ℕ)
      → first_index b'\\' (b ∷ s) ≡ o
      → round (b ∷ s, out) ≡ at_backslash o (b ∷ s) out
  unfolding round
  round_found b s out o e = ap (λ x. at_backslash x (b ∷ s) out) (m.memchr_first b'\\' (b ∷ s) ∙ e)

  round_plain : (b : ℕ) (s out : Bytes) → b ≢ b'\\' → round (b ∷ s, out) ≡ round (s, out ++ b ∷ [])
  unfolding first_index
  round_plain b [] out h =
      round_found b [] out none (first_index_other b [] h) ∙ unfold round at_backslash in refl
  round_plain b (c ∷ s) out h =
      round_found b (c ∷ s) out _ (first_index_other b (c ∷ s) h)
      ∙ at_backslash_longer (first_index b'\\' (c ∷ s)) b (c ∷ s) out
      ∙ sym (round_found c s (out ++ b ∷ []) _ refl)

  round_backslash : (s out : Bytes) → round (b'\\' ∷ s, out) ≡ after_backslash s out
  round_backslash s out =
      round_found b'\\' s out (some 0) (unfold first_index in refl)
      ∙ unfold at_backslash in rw append-nil

  -- The end of the field.
  pub unescape-nil : (out : Bytes) → unescape [] out ≡ ok out
  unfolding unescape
  unescape-nil out = loop_done _ round round_falls ([], out) (ok out) refl

  -- A byte that is no backslash stands for itself.
  pub unescape_plain :
      (b : ℕ) (s out : Bytes) → b ≢ b'\\' → unescape (b ∷ s) out ≡ unescape s (out ++ b ∷ [])
  unfolding unescape
  unescape_plain b s out h =
      loop_same _ round round_falls (b ∷ s, out) (s, out ++ b ∷ []) (round_plain b s out h)

  -- A backslash at the end of the field is refused.
  pub unescape_backslash_end : (out : Bytes) → unescape (b'\\' ∷ []) out ≡ err truncated_escape
  unfolding unescape after_backslash
  unescape_backslash_end out =
      loop_done _ round round_falls (b'\\' ∷ [], out) (err truncated_escape)
        (round_backslash [] out)

  unescape_resume :
      (c : ℕ) (s out : Bytes) (r : Result (ℕ × Bytes))
      → escape_at c s ≡ r
      → unescape (b'\\' ∷ c ∷ s) out ≡ (r >>= λ x. unescape x.1 (out ++ x.0 ∷ []))
  unfolding unescape after_backslash
  unescape_resume c s out (err e) h =
      loop_done _ round round_falls (b'\\' ∷ c ∷ s, out) (err e)
        (round_backslash (c ∷ s) out ∙ ap (resume out) h)
  unescape_resume c s out (ok (b, rest)) h =
      loop_more _ round round_falls (b'\\' ∷ c ∷ s, out) (rest, out ++ b ∷ [])
        (round_backslash (c ∷ s) out ∙ ap (resume out) h)

  -- Any other backslash goes with the escape behind it, and fails as that does.
  pub unescape_backslash :
      (c : ℕ) (s out : Bytes)
      → unescape (b'\\' ∷ c ∷ s) out ≡ (escape_at c s >>= λ x. unescape x.1 (out ++ x.0 ∷ []))
  unescape_backslash c s out = unescape_resume c s out (escape_at c s) refl

  resume-append :
      (r : Result (ℕ × Bytes)) (pre out : Bytes)
      → ((b : ℕ) (rest : Bytes)
          → r ≡ ok (b, rest)
          → unescape rest (pre ++ (out ++ b ∷ []))
            ≡ (unescape rest (out ++ b ∷ []) >>= λ v. ok (pre ++ v)))
      → (r >>= λ x. unescape x.1 ((pre ++ out) ++ x.0 ∷ []))
        ≡ ((r >>= λ x. unescape x.1 (out ++ x.0 ∷ [])) >>= λ v. ok (pre ++ v))
  resume-append (err e) pre out h = refl
  resume-append (ok (b, rest)) pre out h = rw append_assoc (h b rest refl)

  unescape-append_below :
      (k : ℕ) (s pre out : Bytes)
      → length s < k
      → unescape s (pre ++ out) ≡ (unescape s out >>= λ v. ok (pre ++ v))
  unescape-append_below zero s pre out h = absurd (omega arith)
  unescape-append_below (suc k) [] pre out h = rw (unescape-nil (pre ++ out), unescape-nil out)
  unescape-append_below (suc k) (b ∷ []) pre out h = elim (Bool-cases (b == b'\\')) [
    | inl e ↦
        rw ((==_iff b b'\\').0 e)
          (rw (unescape_backslash_end (pre ++ out), unescape_backslash_end out))
    | inr n ↦
        rw
          (
            unescape_plain b [] (pre ++ out) (ground arith),
            unescape_plain b [] out (ground arith),
            append_assoc,
          )
          (unescape-append_below k [] pre (out ++ b ∷ []) (omega arith))
  ]
  unescape-append_below (suc k) (b ∷ c ∷ t) pre out h = elim (Bool-cases (b == b'\\')) [
    | inl e ↦ rw ((==_iff b b'\\').0 e) (
        unescape_backslash c t (pre ++ out)
        ∙ resume-append (escape_at c t) pre out (λ b' rest e'.
          unescape-append_below k rest pre (out ++ b' ∷ [])
            (omega (arith, escape_at-length c t e')))
        ∙ ap (λ r. r >>= λ v. ok (pre ++ v)) (sym (unescape_backslash c t out)))
    | inr n ↦
        rw
          (
            unescape_plain b (c ∷ t) (pre ++ out) (ground arith),
            unescape_plain b (c ∷ t) out (ground arith),
            append_assoc,
          )
          (unescape-append_below k (c ∷ t) pre (out ++ b ∷ []) (omega arith))
  ]

  -- Resolving escapes into a buffer that already holds bytes leaves those in front, and appends or
  -- fails as it does without them.
  pub unescape-append :
      (s pre out : Bytes) → unescape s (pre ++ out) ≡ (unescape s out >>= λ v. ok (pre ++ v))
  unescape-append s pre out = unescape-append_below (suc (length s)) s pre out (omega arith)
