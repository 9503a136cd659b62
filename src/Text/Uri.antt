-- ===== src/Text/Uri.antt =====
-- FluidNC/src/ProcessSettings.cpp: the escapes of characters that a sender must not see in a setting.
pub mod RoundTrip
use fluid_edm.Base.{
  ℕ, Bool, true, false, none, some, List, [], ◌∷◌, ◌++◌, leb, ◌==◌, ◌||◌, if◌then◌else◌,
}
use fluid_edm.Text.Strings.{from_hex}

-- the realtime characters below 0x80: the values of `Cmd` (RealtimeCmd.h)
abbrev pub cmd_reset : ℕ
cmd_reset = 24

abbrev pub cmd_status_report : ℕ
cmd_status_report = b'?'

abbrev pub cmd_cycle_start : ℕ
cmd_cycle_start = b'~'

abbrev pub cmd_feed_hold : ℕ
cmd_feed_hold = b'!'

unfoldable pub is_realtime_command : ℕ → Bool
is_realtime_command ch =
    if leb 128 ch
    then true
    else ch == cmd_reset || ch == cmd_status_report || ch == cmd_cycle_start || ch == cmd_feed_hold

-- The `switch` of `uriEncodeGrblCharacters`.
abbrev pub escape : ℕ → List ℕ
escape c =
    if c == b'%'
    then b'%' ∷ b'2' ∷ b'5' ∷ []
    else if c == b'!'
    then b'%' ∷ b'2' ∷ b'1' ∷ []
    else if c == b'?'
    then b'%' ∷ b'3' ∷ b'F' ∷ []
    else if c == b'~'
    then b'%' ∷ b'7' ∷ b'E' ∷ []
    else c ∷ []

-- A text in memory ends at its first NUL, or at the end of the list.
unfoldable pub uri_encode : List ℕ → List ℕ
uri_encode [] = []
uri_encode (c ∷ clear) = let rest = uri_encode clear in if c == 0 then [] else escape c ++ rest

-- A bad escape ends the text: what is decoded so far is returned.
unfoldable pub uri_decode : List ℕ → List ℕ
uri_decode [] = []
uri_decode (c ∷ []) = if c == b'%' then [] else c ∷ []
uri_decode (c ∷ d ∷ []) = let rest = uri_decode (d ∷ []) in if c == b'%' then [] else c ∷ rest
uri_decode (c ∷ d ∷ e ∷ s) = elim (c == b'%') [
  | true ↦ elim (from_hex (d ∷ e ∷ [])) [ none ↦ [] | some esc ↦ esc ∷ uri_decode s ]
  | false ↦ c ∷ uri_decode (d ∷ e ∷ s)
]
