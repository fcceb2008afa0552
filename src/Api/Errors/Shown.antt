-- ===== src/Api/Errors/Shown.antt =====
-- No text but an error code reaches a client or the standard error stream.
use Prim.Native.Char.{code}
use dshker_server.Api.Errors.{has_blank, is_code, printed_code, status_of, write_error}
use dshker_server.Prelude.{Bool-cases, String, arith, false, inl, inr, refl, sym, true, ◌≡◌, ◌≢◌}

-- A code, with no blank in it.
abbrev pub IsShowable : String → Type 0
IsShowable code = (is_code code ≡ true) × (has_blank code ≡ false)

status_of_ne : (code : String) → status_of code ≢ 500
unfolding status_of
status_of_ne code h = ground arith

true_ne_false : true ≡ false → ⊥
true_ne_false h = cc

-- Whatever the error, the code that a client is sent and the code that the command prints begin
-- with `p2p.` and have no blank or line break; an error that is such a code is passed on as it
-- is, with another status than 500, and any other text is replaced by the internal error with
-- status 500 and by the failed operation.
pub write_error-IsShowable :
    (code : String)
    → IsShowable (write_error code).code
      × IsShowable (printed_code code)
      × (IsShowable code
          → ((write_error code).code ≡ code)
            × (printed_code code ≡ code)
            × ((write_error code).status ≢ 500))
      × (¬ IsShowable code
          → (write_error code ≡ record { status = 500; code = "p2p.internal_error" })
            × (printed_code code ≡ "p2p.operation_failed"))
unfolding write_error printed_code
write_error-IsShowable code = elim (Bool-cases (is_code code)) [
  | inl e ↦ elim (Bool-cases (has_blank code)) [
    | inl f ↦
        rw (e, f) ((refl, refl), (refl, refl), (λ h. absurd (true_ne_false h.1)), λ h. (refl, refl))
    | inr f ↦
        rw (e, f)
          ((e, f), (e, f), (λ h. (refl, refl, status_of_ne code)), λ h. absurd (h (refl, refl)))
  ]
  | inr e ↦
      rw e ((refl, refl), (refl, refl), (λ h. absurd (true_ne_false (sym h.0))), λ h. (refl, refl))
]
