-- ===== src/Text/Uri/RoundTrip.antt =====
-- Escaping and decoding, and what an escaped text holds.
use fluid_edm.Base.{
  ℕ, ◌≡◌, ◌≢◌, ◌≤◌, ◌⊎◌, inl, inr, refl, ap, ◌∙◌, true, false, List, [], ◌∷◌, ◌++◌, ◌==◌, arith,
  All, All-append, Bool-cases,
}
use fluid_edm.Text.Strings.{from_hex, hex_loop, from_xdigit}
use fluid_edm.Text.Uri.{escape, uri_encode, uri_decode, is_realtime_command, cmd_reset}

decode_plain : (c : ℕ) (s : List ℕ) → (c == b'%') ≡ false → uri_decode (c ∷ s) ≡ c ∷ uri_decode s
unfolding uri_decode
decode_plain c [] h = rw h refl
decode_plain c (d ∷ []) h = rw h refl
decode_plain c (d ∷ e ∷ s) h = rw (uri_decode, h) refl

-- the cases of the `switch`
escape-cases {ℓ} :
    (c : ℕ) (P : List ℕ → Type ℓ)
    → (c ≡ b'%' → P (b'%' ∷ b'2' ∷ b'5' ∷ []))
    → (c ≡ b'!' → P (b'%' ∷ b'2' ∷ b'1' ∷ []))
    → (c ≡ b'?' → P (b'%' ∷ b'3' ∷ b'F' ∷ []))
    → (c ≡ b'~' → P (b'%' ∷ b'7' ∷ b'E' ∷ []))
    → ((c == b'%') ≡ false
        → (c == b'!') ≡ false
        → (c == b'?') ≡ false
        → (c == b'~') ≡ false
        → P (c ∷ []))
    → P (escape c)
escape-cases c P percent bang query tilde other = elim (Bool-cases (c == b'%')) [
  | inl h ↦ rw h (percent (ground (arith, h)))
  | inr h₁ ↦ rw h₁ (elim (Bool-cases (c == b'!')) [
    | inl h ↦ rw h (bang (ground (arith, h)))
    | inr h₂ ↦ rw h₂ (elim (Bool-cases (c == b'?')) [
      | inl h ↦ rw h (query (ground (arith, h)))
      | inr h₃ ↦ rw h₃ (elim (Bool-cases (c == b'~')) [
        | inl h ↦ rw h (tilde (ground (arith, h)))
        | inr h₄ ↦ rw h₄ (other h₁ h₂ h₃ h₄)
      ])
    ])
  ])
]

decode-escape : (c : ℕ) (s : List ℕ) → uri_decode (escape c ++ s) ≡ c ∷ uri_decode s
unfolding uri_decode from_hex hex_loop from_xdigit
decode-escape c s =
    escape-cases c (λ t. uri_decode (t ++ s) ≡ c ∷ uri_decode s) (λ e. rw e refl) (λ e. rw e refl)
      (λ e. rw e refl) (λ e. rw e refl) (λ h bang query tilde. decode_plain c s h)

-- Decoding gives an escaped text back, for a text without NUL.
pub uri_decode-uri_encode :
    (clear : List ℕ) → All (λ (c : ℕ). c ≢ 0) clear → uri_decode (uri_encode clear) ≡ clear
unfolding uri_encode
uri_decode-uri_encode [] h = unfold uri_decode in refl
uri_decode-uri_encode (c ∷ clear) (h, hs) =
    let there : (c == 0) ≡ false = ground (arith, h) in
    rw there (
      decode-escape c (uri_encode clear)
      ∙ ap (λ (t : List ℕ). c ∷ t) (uri_decode-uri_encode clear hs))

abbrev pub Harmless : ℕ → Type 0
Harmless c = is_realtime_command c ≡ true → (c ≡ cmd_reset) ⊎ (128 ≤ c)

escape-Harmless : (c : ℕ) → All Harmless (escape c)
unfolding is_realtime_command
escape-Harmless c =
    escape-cases c (All Harmless) (λ e. (λ h. cc, (λ h. cc, (λ h. cc, tt))))
      (λ e. (λ h. cc, (λ h. cc, (λ h. cc, tt)))) (λ e. (λ h. cc, (λ h. cc, (λ h. cc, tt))))
      (λ e. (λ h. cc, (λ h. cc, (λ h. cc, tt))))
      (λ percent bang query tilde. (λ h. ground arith, tt))

-- No realtime character below 0x80 is in an escaped text, the reset (control X) excepted.
pub uri_encode-Harmless : (clear : List ℕ) → All Harmless (uri_encode clear)
unfolding uri_encode
uri_encode-Harmless [] = tt
uri_encode-Harmless (c ∷ clear) = elim (Bool-cases (c == 0)) [
  | inl end ↦ rw end tt
  | inr there ↦ rw there (
      All-append Harmless (escape c) (uri_encode clear) (escape-Harmless c)
        (uri_encode-Harmless clear))
]
