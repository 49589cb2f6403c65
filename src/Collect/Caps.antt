-- ===== src/Collect/Caps.antt =====
-- src/c_config/caps.rs: the five capability sets of a process.
use Prim.Native.Nat.{bit_and}
use Prim.Native.Char.{Char, code}
use checkc.Base.{
  ℕ, ◌+◌, ◌-◌, ◌*◌, ◌^◌, String, Bool, ◌&&◌, Option, none, some, List, [], ◌∷◌, map, Outcome, ok,
  err, ◌>>=◌, unwrap, traverse, ltb, leb, ◌==◌, nat_eq, if◌then◌else◌, Error, conversion_failed,
  io_error,
}
use checkc.Base.Int.{ℤ, pos}
use checkc.Base.Sets.{insert}
use checkc.Base.Text.{◌<>◌, text_contains}
use checkc.Proto.Caps.{
  Capability, CapsConfig, capability_eq, capability_from_i32, capability_to_i32, capability_number,
}
use checkc.Config.{range_from}
use checkc.Collect.Kernel.{Kernel}
use checkc.Collect.Numbers.{show_int, words, is_digit}
use checkc.Collect.Process.{or_error}

-- `enum CapSet`.
pub data CapSet : Type 0 where
  cap_inh cap_prm cap_eff cap_bnd cap_amb : CapSet

-- `Display`, which is `Debug`.
unfoldable pub cap_set_show : CapSet → String
cap_set_show cap_inh = "CapInh"
cap_set_show cap_prm = "CapPrm"
cap_set_show cap_eff = "CapEff"
cap_set_show cap_bnd = "CapBnd"
cap_set_show cap_amb = "CapAmb"

-- `CapSet::list`.
abbrev pub cap_set_list : List CapSet
cap_set_list = cap_inh ∷ cap_prm ∷ cap_eff ∷ cap_bnd ∷ cap_amb ∷ []

-- `Capability::first` and `Capability::last`: the indices of bits.
unfoldable pub capability_first : ℕ
unfolding capability_number
capability_first = capability_number Capability.cap_chown - 1

unfoldable pub capability_last : ℕ
unfolding capability_number
capability_last = capability_number Capability.cap_checkpoint_restore - 1

-- `char::to_digit(16)`.
unfoldable pub hex_digit : ℕ → Option ℕ
hex_digit c =
    if is_digit c
    then some (c - 48)
    else if leb 97 c && leb c 102
    then some (c - 87)
    else if leb 65 c && leb c 70
    then some (c - 55)
    else none

unfoldable pub hex_invalid : Error
hex_invalid = conversion_failed "invalid digit found in string"

unfoldable pub push_hex : ℕ → Char → Outcome ℕ
push_hex n c = elim (hex_digit (code c)) [
  | none ↦ err hex_invalid
  | some d ↦
      if ltb (n * 16 + d) (2 ^ 64)
      then ok (n * 16 + d)
      else err (conversion_failed "number too large to fit in target type")
]

unfoldable pub hex_digits : ℕ → String → Outcome ℕ
hex_digits n String.[] = ok n
hex_digits n (String.◌∷◌ c s) = do m ← push_hex n c; hex_digits m s

-- `u64::from_str_radix(.., 16)`, with its error as the code wraps it.
unfoldable pub parse_hex : String → Outcome ℕ
parse_hex String.[] = err (conversion_failed "cannot parse integer from empty string")
parse_hex (String.◌∷◌ c String.[]) = push_hex 0 c
parse_hex (String.◌∷◌ c (String.◌∷◌ d s)) =
    if code c == 43
    then hex_digits 0 (String.◌∷◌ d s)
    else hex_digits 0 (String.◌∷◌ c (String.◌∷◌ d s))

-- `iter().find(..)` and `last()`.
unfoldable pub find_line : String → List String → Option String
find_line name [] = none
find_line name (line ∷ lines) = if text_contains line name then some line else find_line name lines

unfoldable pub last : List String → Option String
last [] = none
last (x ∷ []) = some x
last (x ∷ y ∷ ys) = last (y ∷ ys)

-- `(caps_encoded & (1u64 << i)) > 0`.
unfoldable pub is_set : ℕ → ℕ → Bool
is_set caps_encoded i = ltb 0 (bit_and caps_encoded (2 ^ i))

-- The loop that decodes the bits.
unfoldable pub decode : ℕ → List ℕ → List Capability → Outcome (List Capability)
decode caps_encoded [] caps = ok caps
decode caps_encoded (i ∷ is) caps =
    if is_set caps_encoded i
    then elim (capability_from_i32 (pos (i + 1))) [
      | none ↦ err (conversion_failed "Could not convert capability")
      | some cap ↦ decode caps_encoded is (insert cap caps)
    ]
    else decode caps_encoded is caps

unfoldable pub decode_caps : ℕ → Outcome (List Capability)
unfolding capability_first capability_last range_from
decode_caps caps_encoded =
    decode caps_encoded (range_from (capability_last + 1 - capability_first) capability_first) []

-- The loop body for one set.
unfoldable pub parse_set : List String → CapSet → Outcome (CapSet × List Capability)
parse_set status_content set = do
  line ← unwrap (find_line (cap_set_show set) status_content)
  word ← unwrap (last (words line))
  caps_encoded ← parse_hex word
  caps ← decode_caps caps_encoded
  ok (set, caps)

-- The `match` in the loop of `caps_config`.
unfoldable pub assign : CapsConfig → CapSet × List Capability → CapsConfig
assign config (cap_amb, v) = record config { cap_amb = map capability_to_i32 v }
assign config (cap_bnd, v) = record config { cap_bnd = map capability_to_i32 v }
assign config (cap_eff, v) = record config { cap_eff = map capability_to_i32 v }
assign config (cap_inh, v) = record config { cap_inh = map capability_to_i32 v }
assign config (cap_prm, v) = record config { cap_prm = map capability_to_i32 v }

unfoldable pub assign_all : CapsConfig → List (CapSet × List Capability) → CapsConfig
assign_all config [] = config
assign_all config (entry ∷ cap_sets) = assign_all (assign config entry) cap_sets

abbrev pub caps_config_default : CapsConfig
caps_config_default = record {
  cap_inh = [];
  cap_prm = [];
  cap_eff = [];
  cap_bnd = [];
  cap_amb = [];
}

module _ (kernel : Kernel) where
  unfoldable pub parse_proc_status : ℤ → Outcome (List (CapSet × List Capability))
  unfolding parse_set
  parse_proc_status pid = do
    status_content ← or_error io_error (kernel.lines ("/proc/" <> show_int pid <> "/status"))
    traverse (parse_set status_content) cap_set_list

  unfoldable pub caps_config : ℤ → Outcome CapsConfig
  unfolding assign_all
  caps_config pid = do
    cap_sets ← parse_proc_status pid
    ok (assign_all caps_config_default cap_sets)
