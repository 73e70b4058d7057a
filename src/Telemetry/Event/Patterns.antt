-- ===== src/Telemetry/Event/Patterns.antt =====
-- The patterns and tables of internal/telemetrybackend/event.go.
use ti_cli.Common.{
  ℕ, Bool, true, false, ◌&&◌, ◌||◌, List, [], ◌∷◌, leb, ◌==◌, if◌then◌else◌, length, drop,
}
use ti_cli.Common.Text.{Text, codes, eqb, has_prefix}

unfoldable pub is_lower : ℕ → Bool
is_lower c = leb b'a' c && leb c b'z'

unfoldable pub is_digit : ℕ → Bool
is_digit c = leb b'0' c && leb c b'9'

unfoldable pub is_alnum_ascii : ℕ → Bool
unfolding is_lower is_digit
is_alnum_ascii c = is_lower c || (leb b'A' c && leb c b'Z') || is_digit c

-- `[A-Za-z0-9_-]`.
unfoldable pub is_word : ℕ → Bool
unfolding is_alnum_ascii
is_word c = is_alnum_ascii c || c == b'_' || c == b'-'

unfoldable pub all : (ℕ → Bool) → Text → Bool
all p [] = true
all p (c ∷ s) = p c && all p s

-- `[class]{low,high}`.
unfoldable pub class_between : (ℕ → Bool) → ℕ → ℕ → Text → Bool
unfolding all
class_between p low high s = leb low (length s) && (leb (length s) high && all p s)

unfoldable pub event_id_matches : Text → Bool
unfolding class_between is_word
event_id_matches = class_between is_word 16 64

unfoldable pub installation_id_matches : Text → Bool
unfolding class_between is_word has_prefix
installation_id_matches s =
    (has_prefix (codes "ti_") s && class_between is_word 16 96 (drop 3 s))
    || (has_prefix (codes "tdc_") s && class_between is_word 16 96 (drop 4 s))

-- `[a-z][a-z0-9-]{0,63}`.
unfoldable pub flag_name_matches : Text → Bool
unfolding class_between is_lower is_digit
flag_name_matches [] = false
flag_name_matches (c ∷ s) =
    is_lower c && class_between (λ d. is_lower d || is_digit d || d == b'-') 0 63 s

-- The words of a text between single spaces.
unfoldable pub split_spaces : Text → List Text
split_spaces [] = [] ∷ []
split_spaces (c ∷ s) =
    let rest = split_spaces s in
    if c == b' ' then [] ∷ rest else elim rest [ [] ↦ (c ∷ []) ∷ [] | w ∷ ws ↦ (c ∷ w) ∷ ws ]

unfoldable pub all_words : List Text → Bool
unfolding flag_name_matches
all_words [] = true
all_words (w ∷ ws) = flag_name_matches w && all_words ws

unfoldable pub command_path_matches : Text → Bool
unfolding split_spaces all_words
command_path_matches s = elim (split_spaces s) [
  | [] ↦ false
  | w ∷ ws ↦ (eqb w (codes "ti") || eqb w (codes "tdc")) && (leb (length ws) 2 && all_words ws)
]

unfoldable pub error_code_matches : Text → Bool
unfolding class_between is_alnum_ascii
error_code_matches =
    class_between (λ c. is_alnum_ascii c || c == b'.' || c == b'_' || c == b'-') 0 64

unfoldable pub cli_version_matches : Text → Bool
unfolding class_between is_alnum_ascii
cli_version_matches [] = false
cli_version_matches (c ∷ s) =
    is_alnum_ascii c
    && class_between (λ d. is_alnum_ascii d || d == b'.' || d == b'+' || d == b'_' || d == b'-') 0
        63 s

unfoldable pub one_of : Text → List Text → Bool
one_of s [] = false
one_of s (a ∷ allowed) = eqb s a || one_of s allowed

abbrev pub disallowed_field_names : List Text
disallowed_field_names =
    codes "api_payload"
    ∷ codes "branch_id"
    ∷ codes "cluster_id"
    ∷ codes "command_output"
    ∷ codes "credential"
    ∷ codes "credentials"
    ∷ codes "file_content"
    ∷ codes "file_path"
    ∷ codes "flag_value"
    ∷ codes "flag_values"
    ∷ codes "hostname"
    ∷ codes "ip_address"
    ∷ codes "journal_id"
    ∷ codes "layer_id"
    ∷ codes "machine_id"
    ∷ codes "mac_address"
    ∷ codes "password"
    ∷ codes "path"
    ∷ codes "profile_name"
    ∷ codes "project_id"
    ∷ codes "raw_error"
    ∷ codes "request_body"
    ∷ codes "response_body"
    ∷ codes "resource_id"
    ∷ codes "sql"
    ∷ codes "sql_text"
    ∷ codes "secret"
    ∷ codes "tenant_id"
    ∷ codes "token"
    ∷ codes "username"
    ∷ []

abbrev pub allowed_regions : List Text
allowed_regions =
    []
    ∷ codes "unknown"
    ∷ codes "aws-us-east-1"
    ∷ codes "aws-us-west-2"
    ∷ codes "aws-eu-central-1"
    ∷ codes "aws-ap-northeast-1"
    ∷ codes "aws-ap-southeast-1"
    ∷ codes "ali-ap-southeast-1"
    ∷ codes "alicloud-ap-southeast-1"
    ∷ codes "gcp-us-east1"
    ∷ codes "azure-centralus"
    ∷ []

abbrev pub allowed_operating_systems : List Text
allowed_operating_systems =
    codes "aix"
    ∷ codes "android"
    ∷ codes "darwin"
    ∷ codes "dragonfly"
    ∷ codes "freebsd"
    ∷ codes "illumos"
    ∷ codes "ios"
    ∷ codes "js"
    ∷ codes "linux"
    ∷ codes "netbsd"
    ∷ codes "openbsd"
    ∷ codes "plan9"
    ∷ codes "solaris"
    ∷ codes "wasip1"
    ∷ codes "windows"
    ∷ []

abbrev pub allowed_architectures : List Text
allowed_architectures =
    codes "386"
    ∷ codes "amd64"
    ∷ codes "arm"
    ∷ codes "arm64"
    ∷ codes "loong64"
    ∷ codes "mips"
    ∷ codes "mips64"
    ∷ codes "mips64le"
    ∷ codes "mipsle"
    ∷ codes "ppc64"
    ∷ codes "ppc64le"
    ∷ codes "riscv64"
    ∷ codes "s390x"
    ∷ codes "wasm"
    ∷ []
