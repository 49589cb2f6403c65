-- ===== src/Collect/CapConfig.antt =====
-- `parse_proc_status` and `caps_config` (src/c_config/caps.rs): what the evaluation reads of the
-- permitted capabilities is what the kernel's mask says.
use checkc.Base.{
  ℕ, ◌-◌, ◌≡◌, refl, ◌∙◌, sym, ap, inr, not, ◌&&◌, some, List, [], ◌∷◌, map, arith, String, ok,
  >>=-elim, unwrap, unwrap-eq-ok, traverse, traverse-elim, leb, ltb, ◌==◌, nat_eq, io_error,
}
use checkc.Base.Int.{ℤ}
use checkc.Base.Text.{◌<>◌}
use checkc.Base.Sets.{contains}
use checkc.Proto.Caps.{
  Capability, CapsConfig, capability_eq, capability_beq, capability_to_i32, capability_number,
  capability_from_i32-to_i32, cap_prm_values, add_known,
}
use checkc.Collect.Kernel.{Kernel}
use checkc.Collect.Numbers.{show_int, words}
use checkc.Collect.Process.{or_error, or_error-eq-ok}
use checkc.Collect.Caps.{
  CapSet, cap_set_show, cap_set_list, is_set, decode_caps, capability_first, capability_last,
  parse_hex, find_line, last, parse_set, parse_proc_status, caps_config, assign, assign_all,
  caps_config_default,
}
use checkc.Collect.CapBits.{any_bit-range, decode-range}

in_range :
    (c : Capability)
    → (ltb 0 (capability_number c) && leb (capability_number c) 41)
      ≡ not (c == Capability.unspecified)
unfolding capability_number capability_beq
in_range Capability.unspecified = refl
in_range _ = refl

-- Every mask is decoded without an error, and the result has a capability exactly if it is not the
-- placeholder and the bit before its number is set.
pub decode_caps-exact :
    (mask : ℕ)
    → (found : List Capability) × (decode_caps mask ≡ ok found)
      × ((c : Capability)
          → contains found c
            ≡ (not (c == Capability.unspecified) && is_set mask (capability_number c - 1)))
unfolding decode_caps capability_first capability_last capability_number contains
decode_caps-exact mask =
    let (found, r, m) = decode-range mask 41 0 [] (omega arith) in
    (found, r, λ c. ground (arith, m c, any_bit-range mask c 41 0, in_range c))

-- What the evaluation reads back of collected capabilities.
cap_prm_values-to_i32 :
    (caps : List Capability) → cap_prm_values (map capability_to_i32 caps) ≡ caps
unfolding cap_prm_values add_known
cap_prm_values-to_i32 [] = refl
cap_prm_values-to_i32 (c ∷ caps) =
    rw (capability_from_i32-to_i32 c, cap_prm_values-to_i32 caps) refl

-- A set that was parsed: its line, the mask on it and the capabilities decoded from that.
pub record Parsed (status_content : List String) (set : CapSet) (caps : List Capability)
    : Type 0 where
  pub line : String
  pub word : String
  pub mask : ℕ
  pub found : find_line (cap_set_show set) status_content ≡ some line
  pub ends : last (words line) ≡ some word
  pub reads : parse_hex word ≡ ok mask
  pub decoded : decode_caps mask ≡ ok caps

parse_set-Parsed :
    (status_content : List String) (set : CapSet) {entry : CapSet × List Capability}
    → parse_set status_content set ≡ ok entry
    → (caps : List Capability) × (entry ≡ (set, caps)) × Parsed status_content set caps
unfolding parse_set
parse_set-Parsed status_content set h =
    >>=-elim (unwrap (find_line (cap_set_show set) status_content)) _ h λ line i h1.
      >>=-elim (unwrap (last (words line))) _ h1 λ word j h2.
        >>=-elim (parse_hex word) _ h2 λ mask k h3. >>=-elim (decode_caps mask) _ h3 λ caps l h4. (
          caps,
          cc h4,
          record {
            line = line;
            word = word;
            mask = mask;
            found = unwrap-eq-ok (find_line (cap_set_show set) status_content) i;
            ends = unwrap-eq-ok (last (words line)) j;
            reads = k;
            decoded = l;
          },
        )

-- The five sets of a status that was parsed.
record AllParsed (status_content : List String) (entries : List (CapSet × List Capability))
    : Type 0 where
  pub inh : List Capability
  pub prm : List Capability
  pub eff : List Capability
  pub bnd : List Capability
  pub amb : List Capability
  pub listed :
      entries
      ≡ (CapSet.cap_inh, inh)
        ∷ (CapSet.cap_prm, prm)
        ∷ (CapSet.cap_eff, eff)
        ∷ (CapSet.cap_bnd, bnd)
        ∷ (CapSet.cap_amb, amb)
        ∷ []
  pub permitted : Parsed status_content CapSet.cap_prm prm

parse_sets-AllParsed :
    (lines : List String) {entries : List (CapSet × List Capability)}
    → traverse (parse_set lines) cap_set_list ≡ ok entries
    → AllParsed lines entries
parse_sets-AllParsed lines h =
    traverse-elim (parse_set lines) CapSet.cap_inh
      (CapSet.cap_prm ∷ CapSet.cap_eff ∷ CapSet.cap_bnd ∷ CapSet.cap_amb ∷ []) h
      λ e1 es1 p1 h1 c1.
        traverse-elim (parse_set lines) CapSet.cap_prm
          (CapSet.cap_eff ∷ CapSet.cap_bnd ∷ CapSet.cap_amb ∷ []) h1
          λ e2 es2 p2 h2 c2.
            traverse-elim (parse_set lines) CapSet.cap_eff (CapSet.cap_bnd ∷ CapSet.cap_amb ∷ []) h2
              λ e3 es3 p3 h3 c3.
                traverse-elim (parse_set lines) CapSet.cap_bnd (CapSet.cap_amb ∷ []) h3
                  λ e4 es4 p4 h4 c4.
                    traverse-elim (parse_set lines) CapSet.cap_amb [] h4 λ e5 es5 p5 h5 c5.
                      let (inh, i1, _) = parse_set-Parsed lines CapSet.cap_inh p1 in
                      let (prm, i2, parsed) = parse_set-Parsed lines CapSet.cap_prm p2 in
                      let (eff, i3, _) = parse_set-Parsed lines CapSet.cap_eff p3 in
                      let (bnd, i4, _) = parse_set-Parsed lines CapSet.cap_bnd p4 in
                      let (amb, i5, _) = parse_set-Parsed lines CapSet.cap_amb p5 in
                      record {
                        inh = inh;
                        prm = prm;
                        eff = eff;
                        bnd = bnd;
                        amb = amb;
                        listed = cc (c1, c2, c3, c4, c5, h5, i1, i2, i3, i4, i5);
                        permitted = parsed;
                      }

assigned-cap_prm :
    {lines : List String} {entries : List (CapSet × List Capability)} {config : CapsConfig}
    (a : AllParsed lines entries)
    → assign_all caps_config_default entries ≡ config
    → config.cap_prm ≡ map capability_to_i32 a.prm
unfolding assign_all assign
assigned-cap_prm a e =
    sym (ap (λ c. c.cap_prm) e)
    ∙ ap (λ entries. (assign_all caps_config_default entries).cap_prm) a.listed

module _ (kernel : Kernel) (pid : ℤ) where
  -- Where the capabilities of a process were collected, the evaluation reads among the permitted ones
  -- exactly those whose bits are set in the mask at the end of the line `CapPrm` of its status.
  pub caps_config-cap_prm :
      {config : CapsConfig} (c : Capability)
      → caps_config kernel pid ≡ ok config
      → (status_content : List String) × (caps : List Capability) × (parsed : Parsed status_content
          CapSet.cap_prm caps)
        × (kernel.lines ("/proc/" <> show_int pid <> "/status") ≡ inr status_content)
        × (contains (cap_prm_values config.cap_prm) c
            ≡ (not (c == Capability.unspecified) && is_set parsed.mask (capability_number c - 1)))
  unfolding caps_config parse_proc_status
  caps_config-cap_prm {config} c h = >>=-elim (parse_proc_status kernel pid) _ h λ cap_sets k h1.
      >>=-elim (or_error io_error (kernel.lines ("/proc/" <> show_int pid <> "/status"))) _ k
        λ lines i k1.
          let a = parse_sets-AllParsed lines k1 in
          let (found, r, exact) = decode_caps-exact a.permitted.mask in
          (
            lines,
            a.prm,
            a.permitted,
            or_error-eq-ok io_error _ i,
            rw (assigned-cap_prm {config = config} a (cc h1), cap_prm_values-to_i32 a.prm)
                (ap (λ caps. contains caps c) (cc (a.permitted.decoded, r)) ∙ exact c),
          )
