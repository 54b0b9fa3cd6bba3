-- ===== src/Read/Header/Laws.antt =====
-- The length that a header says, against its buffer.
use kaas_lib.Prelude.{
  ℕ, ◌+◌, ◌≤◌, ◌≡◌, Bool, true, false, not, Option, none, some, if◌then◌else◌, refl, arith, ltb,
  ◌==◌, length,
}
use kaas_lib.Prelude.Int.{pos, ltb_ℤ}
use kaas_lib.Meta.Retry.Reask.{Result, ok, err}
use kaas_lib.Read.Record.{Bytes}
use kaas_lib.Read.Header.{
  BatchHeader, HeaderProblem, need, prefix_len, min_len, peek_fields, peek_header,
}

-- What a read header is, whatever a failure is.
unfoldable pub OkIs : (BatchHeader → Type 0) → Result HeaderProblem BatchHeader → Type 0
OkIs P (err problem) = Unit
OkIs P (ok h) = P h

module _ (P : BatchHeader → Type 0) where
  pub need-OkIs :
      {A : Type 0} (o : Option A) (problem : HeaderProblem)
      (rest : A → Result HeaderProblem BatchHeader)
      → ((a : A) → OkIs P (rest a))
      → OkIs P (need o problem rest)
  unfolding OkIs need
  need-OkIs none problem rest h = tt
  need-OkIs (some a) problem rest h = h a

  if-OkIs :
      (b : Bool) (problem : HeaderProblem) (rest : Result HeaderProblem BatchHeader)
      → (b ≡ false → OkIs P rest)
      → OkIs P (if b then err problem else rest)
  unfolding OkIs
  if-OkIs true problem rest h = tt
  if-OkIs false problem rest h = h refl

OkIs-map :
    (P Q : BatchHeader → Type 0)
    → ((h : BatchHeader) → P h → Q h)
    → (r : Result HeaderProblem BatchHeader) → OkIs P r
    → OkIs Q r
unfolding OkIs
OkIs-map P Q f (err problem) h = tt
OkIs-map P Q f (ok header) h = f header h

pub peek_fields-len : (buf : Bytes) (n : ℕ) → OkIs (λ h. h.total_len ≡ n) (peek_fields buf n)
unfolding peek_fields OkIs
peek_fields-len buf n =
    let P : BatchHeader → Type 0 = λ h. h.total_len ≡ n in
    need-OkIs P _ _ _ (λ magic. if-OkIs P (not (magic == 2)) _ _ (λ v2. need-OkIs P _ _ _ (λ a.
      need-OkIs P _ _ _ (λ b.
        need-OkIs P _ _ _
          (λ c. need-OkIs P _ _ _ (λ d. need-OkIs P _ _ _ (λ e. need-OkIs P _ _ _ (λ f. refl))))))))

-- A header that is read at the front of a buffer says a length that covers at least the twelve bytes
-- up to the length field and lies within the buffer.
pub peek_header-Fits :
    (buf : Bytes)
    → OkIs (λ h. (prefix_len ≤ h.total_len) × (h.total_len ≤ length buf)) (peek_header buf)
unfolding peek_header
peek_header-Fits buf =
    let P : BatchHeader → Type 0 = λ h. (prefix_len ≤ h.total_len) × (h.total_len ≤ length buf) in
    if-OkIs P (ltb (length buf) min_len) _ _ (λ long. need-OkIs P _ _ _ (λ batch_length.
      if-OkIs P (ltb_ℤ batch_length (pos 0)) _ _ (λ positive. need-OkIs P _ _ _ (λ n.
        if-OkIs P (ltb (length buf) (prefix_len + n)) _ _ (λ whole.
          OkIs-map (λ h. h.total_len ≡ prefix_len + n) P (λ h e. (omega arith, ground arith))
            (peek_fields buf (prefix_len + n)) (peek_fields-len buf (prefix_len + n)))))))
