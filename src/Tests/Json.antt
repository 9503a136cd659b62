-- ===== src/Tests/Json.antt =====
-- The JSON encoder on concrete texts.
use fluid_edm.Base.{ℕ, ◌≡◌, refl, true, some, List, [], ◌∷◌, ◌++◌, arith}
use fluid_edm.Json.{new_encoder, begin_object, end_object, quoted}
use fluid_edm.Json.Quoted.{written, quote, read_string, read_string-quoted}
use fluid_edm.Json.Lines.{
  IsPacked, do_calls, call_begin_object, call_member, call_end, do_calls-IsPacked,
}
use fluid_edm.Json.Object.{put_members, print_object, end_object-print_object}

-- what stood in the counts before
abbrev seven : ℕ → ℕ
seven k = 7

-- "x", "-1", and a text with a quote and a line feed
abbrev x_tag : List ℕ
x_tag = b'x' ∷ []

abbrev minus_one : List ℕ
minus_one = b'-' ∷ b'1' ∷ []

abbrev two_lines : List ℕ
two_lines = b'a' ∷ b'"' ∷ 10 ∷ b'b' ∷ []

fresh-IsPacked : IsPacked (new_encoder seven true true)
unfolding new_encoder
fresh-IsPacked = record { channel = refl; tag = refl; unsent = omega arith; sent = tt }

do_calls-IsPacked_example : IsPacked (
    do_calls
      (new_encoder seven true true)
      (call_begin_object ∷ call_member x_tag two_lines ∷ call_end ∷ []))
do_calls-IsPacked_example =
    do_calls-IsPacked (new_encoder seven true true)
      (call_begin_object ∷ call_member x_tag two_lines ∷ call_end ∷ []) fresh-IsPacked

read_string-quoted_example :
    (written (quoted (new_encoder seven true true) two_lines)
      ≡ written (new_encoder seven true true) ++ quote two_lines)
    × (read_string (quote two_lines ++ minus_one) ≡ some (two_lines, minus_one))
read_string-quoted_example = read_string-quoted (new_encoder seven true true) two_lines minus_one

end_object-print_object_example :
    written (
      end_object (
        put_members
          (begin_object (new_encoder seven true true))
          ((x_tag, minus_one) ∷ (x_tag, minus_one) ∷ [])))
    ≡ print_object ((x_tag, minus_one) ∷ (x_tag, minus_one) ∷ [])
end_object-print_object_example =
    end_object-print_object seven ((x_tag, minus_one) ∷ (x_tag, minus_one) ∷ []) (omega arith)
