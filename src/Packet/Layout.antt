-- ===== src/Packet/Layout.antt =====
-- The texts that network_client.cpp takes out of a packet.
use nsca_fast.Prelude.{
  ℕ, zero, suc, ◌+◌, ◌-◌, ◌≤◌, ◌<◌, ◌≢◌, inl, inr, List, [], ◌∷◌, get_or, length, set, take, drop,
  length-take, ◌==◌, arith, All, IsBytes, Bool-cases, ◌^◌,
}
use nsca_fast.Packet.{
  c_string, text_field, Check, check_of, return_code, net16, host_offset, description_offset,
  output_offset, max_hostname_length, max_description_length, max_pluginoutput_length,
  return_code_offset,
}

length-c_string : (xs : List ℕ) → length (c_string xs) ≤ length xs
unfolding c_string
length-c_string [] = omega arith
length-c_string (x ∷ xs) = elim (Bool-cases (x == 0)) [
  | inl nul ↦ rw (nul, c_string) (omega arith)
  | inr char ↦ rw (char, c_string) (omega (arith, length-c_string xs))
]

-- A NUL at an index cuts the text there at the latest.
length-c_string-set : (xs : List ℕ) (i : ℕ) → length xs ≤ i + 1 → length (c_string (set xs i 0)) ≤ i
unfolding c_string
length-c_string-set [] i h = omega arith
length-c_string-set (x ∷ xs) zero h = omega arith
length-c_string-set (x ∷ xs) (suc i) h = elim (Bool-cases (x == 0)) [
  | inl nul ↦ rw (nul, c_string) (omega arith)
  | inr char ↦ rw (char, c_string) (omega (arith, length-c_string-set xs i (omega arith)))
]

c_string-All : (xs : List ℕ) → All (λ c. c ≢ 0) (c_string xs)
unfolding c_string
c_string-All [] = tt
c_string-All (x ∷ xs) = elim (Bool-cases (x == 0)) [
  | inl nul ↦ rw (nul, c_string) tt
  | inr char ↦ rw (char, c_string) ((λ e. ground (arith, char, e)), c_string-All xs)
]

pub length-text_field :
    (offset size : ℕ) (packet : List ℕ)
    → 0 < size
    → length (text_field offset size packet) ≤ size - 1
unfolding text_field
length-text_field offset size packet h =
    length-c_string-set (take size (drop offset packet)) (size - 1)
      (omega (arith, length-take size (drop offset packet)))

text_field-All :
    (offset size : ℕ) (packet : List ℕ) → All (λ b. b ≢ 0) (text_field offset size packet)
unfolding text_field
text_field-All offset size packet = c_string-All (set (take size (drop offset packet)) (size - 1) 0)

-- A check whose texts fit in the fields of a packet with their NUL, and have no NUL in them.
pub record Fits (c : Check) : Type 0 where
  pub host_fits : length c.host_name < max_hostname_length
  pub description_fits : length c.svc_description < max_description_length
  pub output_fits : length c.plugin_output < max_pluginoutput_length
  pub no_nul :
      All (λ b. b ≢ 0) c.host_name
      × All (λ b. b ≢ 0) c.svc_description
      × All (λ b. b ≢ 0) c.plugin_output
  pub code_fits : c.return_value < 2 ^ 16

get_or-byte : (xs : List ℕ) (i : ℕ) → IsBytes xs → get_or xs i 0 < 256
get_or-byte [] i h = omega arith
get_or-byte (x ∷ xs) zero h = h.0
get_or-byte (x ∷ xs) (suc i) h = get_or-byte xs i h.1

-- Whatever bytes a packet has, also none that is NUL, the texts taken from it fit in their fields
-- with a NUL behind them, none has a NUL in it, and the return code has 16 bits.
pub check_of-Fits : (packet : List ℕ) → IsBytes packet → Fits (check_of packet)
unfolding check_of text_field return_code net16
check_of-Fits packet bytes = record {
  host_fits = omega (arith, length-text_field host_offset max_hostname_length packet (omega arith));
  description_fits =
      omega
        (arith, length-text_field description_offset max_description_length packet (omega arith));
  output_fits =
      omega (arith, length-text_field output_offset max_pluginoutput_length packet (omega arith));
  no_nul = (
    text_field-All host_offset max_hostname_length packet,
    text_field-All description_offset max_description_length packet,
    text_field-All output_offset max_pluginoutput_length packet,
  );
  code_fits = omega (
    arith,
    get_or-byte packet return_code_offset bytes,
    get_or-byte packet (return_code_offset + 1) bytes,
  );
}
