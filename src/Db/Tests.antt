-- ===== src/Db/Tests.antt =====
-- Small statements, tokens and values.
use ti_cli.Common.{ℕ, false, Option, none, some, List, [], ◌≡◌, refl, arith}
use ti_cli.Common.Int.{pos}
use ti_cli.Common.Result.{ok}
use ti_cli.Common.Text.{Text, codes, eqb, trim_space, trim_left, is_space, byte_len, rune_len}
use ti_cli.Db.Statement.{is_single}
use ti_cli.Db.Statement.Single.{verdict, outside, plain, is_single_lem}
use ti_cli.Db.Paging.{
  ListCursor, new_list_cursor, decode_list_cursor, encode_list_cursor, checked_cursor, same_context,
  normalized_profile_name, effective_region_code,
}
use ti_cli.Db.Paging.Tokens.{
  InPlace, SameContext, accepted_token, decode_list_cursor-encode_list_cursor,
}
use ti_cli.Db.Dotenv.{dotenv_value, read_value, read_value-dotenv_value}

abbrev statement : Text
statement = codes "select ';' ;  "

is_single_lem_example : is_single statement ≡ verdict false (outside plain statement)
is_single_lem_example = is_single_lem statement

read_value-dotenv_value_example :
    read_value (dotenv_value (codes "a\"b c\\")) ≡ some (codes "a\"b c\\")
read_value-dotenv_value_example = read_value-dotenv_value (codes "a\"b c\\")

-- The second page of a list, after three entries.
abbrev next_page : ListCursor
next_page = record (new_list_cursor none (codes "starter") [] []) {
  matched_offset = pos 3;
  page_fingerprint = codes "f";
}

-- Codecs that know one cursor.
abbrev read_page : List ℕ → Option ListCursor
read_page bytes = some next_page

decode_list_cursor-encode_list_cursor_example :
    decode_list_cursor some read_page
      (encode_list_cursor (λ b. b) (λ c. codes "x") next_page)
      (new_list_cursor none (codes "starter") [] [])
    ≡ ok next_page
unfolding trim_space trim_left is_space eqb byte_len rune_len new_list_cursor
    normalized_profile_name effective_region_code same_context
decode_list_cursor-encode_list_cursor_example =
    decode_list_cursor-encode_list_cursor some read_page (λ b. b) (λ c. codes "x") next_page
      (new_list_cursor none (codes "starter") [] []) refl refl refl (omega arith) (omega arith) refl
      refl

accepted_token_example :
    InPlace next_page × SameContext next_page (new_list_cursor none (codes "starter") [] [])
unfolding trim_space trim_left is_space eqb byte_len rune_len new_list_cursor
    normalized_profile_name effective_region_code same_context decode_list_cursor checked_cursor
accepted_token_example =
    accepted_token some read_page (codes "x") (new_list_cursor none (codes "starter") [] [])
      next_page refl refl
