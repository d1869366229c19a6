-- ===== src/Ipc/Server/Framing.antt =====
-- How a client's bytes arrive does not matter.
use loginext.Ipc.Dispatch.{Response, respond}
use loginext.Ipc.Server.{Effect, write_line, Outcome, answer, dispatch_lines}
use loginext.Prelude.{
  ℕ, ◌≡◌, refl, sym, ap, ◌∙◌, Bool, true, false, not, ◌&&◌, ◌==◌, Option, none, some, ℤ, List, [],
  ◌∷◌, ◌++◌, append-nil, append_assoc, Bytes, Bool-cases, inl, inr, arith,
}

-- A buffer without a newline
abbrev pub no_newline : Bytes → Bool
no_newline [] = true
no_newline (c ∷ s) = not (c == b'\n') && no_newline s

no_newline-append :
    (a b : Bytes) → no_newline a ≡ true → no_newline b ≡ true → no_newline (a ++ b) ≡ true
no_newline-append [] b p q = q
no_newline-append (c ∷ a) b p q = ground (arith, no_newline-append a b)

abbrev pub Rest : Option Bytes → Type 0
Rest none = Unit
Rest (some rest) = no_newline rest ≡ true

module _ {ℓ} {H : Type ℓ} (handler : H → Bytes → ℤ → H × Response) where
  -- More bytes after an outcome.
  abbrev pub resume : ℤ → Outcome H → Bytes → Outcome H
  resume fd (h, es, none) b = (h, es, none)
  resume fd (h, es, some rest) b =
      let (h', es', r) = dispatch_lines handler h fd rest b in (h', es ++ es', r)

  resume_write :
      (fd : ℤ) (w : List Effect) (o : Outcome H) (b : Bytes)
      → (let (h, es, r) = o in resume fd (h, w ++ es, r) b)
        ≡ (let (h, es, r) = resume fd o b in (h, w ++ es, r))
  resume_write fd w (h, es, none) b = refl
  resume_write fd w (h, es, some rest) b =
      let o = dispatch_lines handler h fd rest b in
      ap (λ (l : List Effect). (o.0, l, o.2)) (append_assoc w es o.1)

  answer-resume :
      (loop loop' : H → Outcome H) (fd : ℤ) (b : Bytes) (x : H × Response)
      → ((h : H) → loop' h ≡ resume fd (loop h) b)
      → answer loop' fd x ≡ resume fd (answer loop fd x) b
  answer-resume loop loop' fd b (h, Response.drop) e = refl
  answer-resume loop loop' fd b (h, Response.silent) e = e h
  answer-resume loop loop' fd b (h, respond r) e =
      ap (λ (o : Outcome H). (o.0, write_line fd r ++ o.1, o.2)) (e h)
      ∙ sym (resume_write fd (write_line fd r) (loop h) b)

  pub dispatch_lines_newline :
      (h : H) (fd : ℤ) (line : Bytes) (c : ℕ) (s : Bytes)
      → (c == b'\n') ≡ true
      → dispatch_lines handler h fd line (c ∷ s)
        ≡ answer (λ h'. dispatch_lines handler h' fd [] s) fd (handler h line fd)
  unfolding dispatch_lines
  dispatch_lines_newline h fd line c s e = rw (dispatch_lines, e)

  pub dispatch_lines_byte :
      (h : H) (fd : ℤ) (line : Bytes) (c : ℕ) (s : Bytes)
      → (c == b'\n') ≡ false
      → dispatch_lines handler h fd line (c ∷ s) ≡ dispatch_lines handler h fd (line ++ c ∷ []) s
  unfolding dispatch_lines
  dispatch_lines_byte h fd line c s e = rw (dispatch_lines, e)

  dispatch_lines-append :
      (h : H) (fd : ℤ) (line a b : Bytes)
      → dispatch_lines handler h fd line (a ++ b) ≡ resume fd (dispatch_lines handler h fd line a) b
  unfolding dispatch_lines
  dispatch_lines-append h fd line [] b = refl
  dispatch_lines-append h fd line (c ∷ a) b = elim (Bool-cases (c == b'\n')) [
    | inl e ↦
        rw (dispatch_lines_newline h fd line c (a ++ b) e, dispatch_lines_newline h fd line c a e)
          (answer-resume (λ h'. dispatch_lines handler h' fd [] a)
            (λ h'. dispatch_lines handler h' fd [] (a ++ b)) fd b (handler h line fd)
            (λ h'. dispatch_lines-append h' fd [] a b))
    | inr e ↦
        rw (dispatch_lines_byte h fd line c (a ++ b) e, dispatch_lines_byte h fd line c a e)
          (dispatch_lines-append h fd (line ++ c ∷ []) a b)
  ]

  dispatch_lines_rescan :
      (h : H) (fd : ℤ) (line x b : Bytes)
      → no_newline x ≡ true
      → dispatch_lines handler h fd line (x ++ b) ≡ dispatch_lines handler h fd (line ++ x) b
  unfolding dispatch_lines
  dispatch_lines_rescan h fd line [] b p = rw (append-nil line)
  dispatch_lines_rescan h fd line (c ∷ x) b p =
      let ne : (c == b'\n') ≡ false = ground arith in
      rw (dispatch_lines_byte h fd line c (x ++ b) ne) (
        dispatch_lines_rescan h fd (line ++ c ∷ []) x b (ground arith)
        ∙ ap (λ (l : Bytes). dispatch_lines handler h fd l b) (append_assoc line (c ∷ []) x))

  answer-Rest :
      (loop : H → Outcome H) (fd : ℤ) (x : H × Response)
      → ((h : H) → Rest (loop h).2)
      → Rest (answer loop fd x).2
  answer-Rest loop fd (h, Response.drop) e = tt
  answer-Rest loop fd (h, Response.silent) e = e h
  answer-Rest loop fd (h, respond r) e = e h

  -- What remains in the buffer has no newline.
  pub dispatch_lines-Rest :
      (h : H) (fd : ℤ) (line a : Bytes)
      → no_newline line ≡ true
      → Rest (dispatch_lines handler h fd line a).2
  unfolding dispatch_lines
  dispatch_lines-Rest h fd line [] p = p
  dispatch_lines-Rest h fd line (c ∷ a) p = elim (Bool-cases (c == b'\n')) [
    | inl e ↦ rw (dispatch_lines_newline h fd line c a e) (
        answer-Rest (λ h'. dispatch_lines handler h' fd [] a) fd (handler h line fd)
          (λ h'. dispatch_lines-Rest h' fd [] a refl))
    | inr e ↦ rw (dispatch_lines_byte h fd line c a e) (
        dispatch_lines-Rest h fd (line ++ c ∷ []) a
          (no_newline-append line (c ∷ []) p (ground arith)))
  ]

  -- The next buffer of a client, whose last one left this outcome.
  abbrev pub next_buffer : ℤ → Outcome H → Bytes → Outcome H
  next_buffer fd (h, es, none) b = (h, es, none)
  next_buffer fd (h, es, some rest) b =
      let (h', es', r) = dispatch_lines handler h fd [] (rest ++ b) in (h', es ++ es', r)

  next_buffer-resume :
      (fd : ℤ) (o : Outcome H) (b : Bytes) → Rest o.2 → next_buffer fd o b ≡ resume fd o b
  next_buffer-resume fd (h, es, none) b p = refl
  next_buffer-resume fd (h, es, some rest) b p =
      ap (λ (o : Outcome H). (o.0, es ++ o.1, o.2)) (dispatch_lines_rescan h fd [] rest b p)

  -- For any handler: bytes that arrive in two parts, where the buffer keeps what the first part left of
  -- a line, give the same handler calls, the same writes, the same rest and the same decision to
  -- close the client as all the bytes at once.
  pub dispatch_lines_split :
      (h : H) (fd : ℤ) (a b : Bytes)
      → next_buffer fd (dispatch_lines handler h fd [] a) b
        ≡ dispatch_lines handler h fd [] (a ++ b)
  dispatch_lines_split h fd a b =
      next_buffer-resume fd (dispatch_lines handler h fd [] a) b
        (dispatch_lines-Rest h fd [] a refl)
      ∙ sym (dispatch_lines-append h fd [] a b)
