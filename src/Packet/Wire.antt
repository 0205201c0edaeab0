-- ===== src/Packet/Wire.antt =====
-- A data_packet as a client of the protocol lays it out: struct data_packet_struct of nsca_common.h
-- field by field, the numbers with their highest byte first, the texts filled up with NULs. This
-- side is described from the struct alone, for what the daemon reads in it.
use nsca_fast.Prelude.{
  ℕ, zero, suc, ◌+◌, ◌-◌, ◌*◌, ◌/◌, ◌%◌, ◌^◌, ◌≤◌, ◌<◌, ◌≢◌, ◌≡◌, refl, sym, ap, ◌∙◌, inl, inr,
  List, [], ◌∷◌, ◌++◌, length, length-append, length-replicate, set, take, take-append, drop,
  drop-append, replicate, ◌==◌, arith, All, All-append, IsBytes, Bool-cases,
}
use nsca_fast.Packet.{
  c_string, text_field, Check, check_of, return_code, net16, net32, host_offset, description_offset,
  output_offset, max_hostname_length, max_description_length, max_pluginoutput_length,
  nsca_packet_version_3, overwrite, clear_crc, packet_version, crc32_value, timestamp,
  sizeof_data_packet,
}
use nsca_fast.Packet.Layout.{Fits}

-- The byte of a number at a power of 256.
abbrev pub byte_at : ℕ → ℕ → ℕ
byte_at k n = n / 2 ^ (8 * k) % 2 ^ 8

-- A text in an array of char.
unfoldable pub field : ℕ → List ℕ → List ℕ
field size text = text ++ replicate (size - length text) 0

-- The texts, and the two bytes that align the struct.
unfoldable pub texts : Check → List ℕ
texts c =
    field max_hostname_length c.host_name
    ++ (field max_description_length c.svc_description
        ++ (field max_pluginoutput_length c.plugin_output ++ 0 ∷ 0 ∷ []))

-- The packet with a checksum and a time.
unfoldable pub laid_out : ℕ → ℕ → Check → List ℕ
laid_out crc time c =
    byte_at 1 nsca_packet_version_3
    ∷ byte_at 0 nsca_packet_version_3
    ∷ 0
    ∷ 0
    ∷ byte_at 3 crc
    ∷ byte_at 2 crc
    ∷ byte_at 1 crc
    ∷ byte_at 0 crc
    ∷ byte_at 3 time
    ∷ byte_at 2 time
    ∷ byte_at 1 time
    ∷ byte_at 0 time
    ∷ byte_at 1 c.return_value
    ∷ byte_at 0 c.return_value
    ∷ texts c

length-field : (size : ℕ) (text : List ℕ) → length text < size → length (field size text) ≡ size
unfolding field
length-field size text h = omega (
  arith,
  length-append text (replicate (size - length text) 0),
  length-replicate {A = ℕ} (size - length text) 0,
)

pub length-laid_out :
    (crc time : ℕ) (c : Check) → Fits c → length (laid_out crc time c) ≡ sizeof_data_packet
unfolding laid_out texts
length-laid_out crc time c fits =
    let host = field max_hostname_length c.host_name in
    let description = field max_description_length c.svc_description in
    let output = field max_pluginoutput_length c.plugin_output in
    omega (
      arith,
      length-append host (description ++ (output ++ 0 ∷ 0 ∷ [])),
      length-append description (output ++ 0 ∷ 0 ∷ []),
      length-append output (0 ∷ 0 ∷ []),
      length-field max_hostname_length c.host_name fits.host_fits,
      length-field max_description_length c.svc_description fits.description_fits,
      length-field max_pluginoutput_length c.plugin_output fits.output_fits,
    )

-- What is read back of a text that is followed by NULs, with one more NUL set behind it.
c_string-set :
    (text : List ℕ) (k i : ℕ)
    → All (λ c. c ≢ 0) text
    → length text ≤ i
    → c_string (set (text ++ replicate (suc k) 0) i 0) ≡ text
unfolding c_string replicate
c_string-set [] k zero chars h = refl
c_string-set [] k (suc i) chars h = refl
c_string-set (x ∷ text) k zero chars h = absurd (omega arith)
c_string-set (x ∷ text) k (suc i) chars h = elim (Bool-cases (x == 0)) [
  | inl nul ↦ absurd (ground (arith, nul, chars.0))
  | inr char ↦ rw (char, c_string-set text k i chars.1 (omega arith)) refl
]

c_string-field :
    (size : ℕ) (text : List ℕ)
    → All (λ c. c ≢ 0) text
    → length text < size
    → c_string (set (field size text) (size - 1) 0) ≡ text
unfolding field
c_string-field size text chars h =
    let spare : size - length text ≡ suc (size - length text - 1) = omega arith in
    rw spare (c_string-set text (size - length text - 1) (size - 1) chars (omega arith))

replicate-IsBytes : (n : ℕ) → IsBytes (replicate n 0)
unfolding replicate
replicate-IsBytes zero = tt
replicate-IsBytes (suc n) = (omega arith, replicate-IsBytes n)

field-IsBytes :
    (size : ℕ) (text rest : List ℕ)
    → IsBytes text
    → IsBytes rest
    → IsBytes (field size text ++ rest)
unfolding field
field-IsBytes size text rest bytes behind =
    All-append _ (text ++ replicate (size - length text) 0) rest
      (All-append _ text (replicate (size - length text) 0) bytes
        (replicate-IsBytes (size - length text)))
      behind

drop-drop : (n k m : ℕ) (xs : List ℕ) → n + k ≡ m → drop m xs ≡ drop k (drop n xs)
unfolding drop
drop-drop zero k m xs e = let same : m ≡ k = omega arith in ap (λ j. drop j xs) same
drop-drop (suc n) k zero xs e = absurd (omega arith)
drop-drop (suc n) zero (suc m) [] e = refl
drop-drop (suc n) (suc k) (suc m) [] e = refl
drop-drop (suc n) k (suc m) (x ∷ xs) e = drop-drop n k m xs (omega arith)

module _ (size : ℕ) (text rest : List ℕ) (h : length text < size) where
  take-field : take size (field size text ++ rest) ≡ field size text
  take-field =
      ap (λ n. take n (field size text ++ rest)) (sym (length-field size text h))
      ∙ take-append (field size text) rest

  drop-field : drop size (field size text ++ rest) ≡ rest
  drop-field =
      ap (λ n. drop n (field size text ++ rest)) (sym (length-field size text h))
      ∙ drop-append (field size text) rest

pub check_of-laid_out : (crc time : ℕ) (c : Check) → Fits c → check_of (laid_out crc time c) ≡ c
unfolding check_of laid_out texts text_field return_code net16
check_of-laid_out crc time c fits i = record {
  host_name = host i;
  svc_description = description i;
  return_value = value i;
  plugin_output = output i;
}
  where
    behind_host : List ℕ
    behind_host =
        field max_description_length c.svc_description
        ++ (field max_pluginoutput_length c.plugin_output ++ 0 ∷ 0 ∷ [])

    behind_description : List ℕ
    behind_description = field max_pluginoutput_length c.plugin_output ++ 0 ∷ 0 ∷ []

    value : byte_at 1 c.return_value * 2 ^ 8 + byte_at 0 c.return_value ≡ c.return_value
    value = omega (arith, fits.code_fits)

    host : text_field host_offset max_hostname_length (laid_out crc time c) ≡ c.host_name
    host =
        ap (λ t. c_string (set t 63 0))
          (take-field max_hostname_length c.host_name behind_host fits.host_fits)
        ∙ c_string-field max_hostname_length c.host_name fits.no_nul.0 fits.host_fits

    description :
        text_field description_offset max_description_length (laid_out crc time c)
        ≡ c.svc_description
    description =
        ap (λ t. c_string (set (take max_description_length t) 127 0))
          (drop-field max_hostname_length c.host_name behind_host fits.host_fits)
        ∙ ap (λ t. c_string (set t 127 0))
            (take-field max_description_length c.svc_description behind_description
              fits.description_fits)
        ∙ c_string-field max_description_length c.svc_description fits.no_nul.1
            fits.description_fits

    output :
        text_field output_offset max_pluginoutput_length (laid_out crc time c) ≡ c.plugin_output
    output =
        ap (λ t. c_string (set (take max_pluginoutput_length t) 4095 0))
          (drop-drop max_hostname_length max_description_length 192 (texts c) refl
            ∙ ap (drop max_description_length)
                (drop-field max_hostname_length c.host_name behind_host fits.host_fits)
            ∙ drop-field max_description_length c.svc_description behind_description
                fits.description_fits)
        ∙ ap (λ t. c_string (set t 4095 0))
            (take-field max_pluginoutput_length c.plugin_output (0 ∷ 0 ∷ []) fits.output_fits)
        ∙ c_string-field max_pluginoutput_length c.plugin_output fits.no_nul.2 fits.output_fits

texts-IsBytes :
    (c : Check)
    → IsBytes c.host_name
    → IsBytes c.svc_description
    → IsBytes c.plugin_output
    → IsBytes (texts c)
unfolding texts
texts-IsBytes c host description output = field-IsBytes max_hostname_length c.host_name _ host (
    field-IsBytes max_description_length c.svc_description _ description (
      field-IsBytes max_pluginoutput_length c.plugin_output _ output
        (omega arith, (omega arith, tt))))

pub laid_out-IsBytes :
    (crc time : ℕ) (c : Check)
    → IsBytes c.host_name
    → IsBytes c.svc_description
    → IsBytes c.plugin_output
    → IsBytes (laid_out crc time c)
unfolding laid_out
laid_out-IsBytes crc time c host description output = (
  omega arith,
  (
    omega arith,
    (
      omega arith,
      (
        omega arith,
        (
          omega arith,
          (
            omega arith,
            (
              omega arith,
              (
                omega arith,
                (
                  omega arith,
                  (
                    omega arith,
                    (
                      omega arith,
                      (
                        omega arith,
                        (omega arith, (omega arith, texts-IsBytes c host description output)),
                      ),
                    ),
                  ),
                ),
              ),
            ),
          ),
        ),
      ),
    ),
  ),
)

-- The fields of the header are read back.
pub header-laid_out :
    (crc time : ℕ) (c : Check)
    → crc < 2 ^ 32
    → time < 2 ^ 32
    → (packet_version (laid_out crc time c) ≡ nsca_packet_version_3)
      × (crc32_value (laid_out crc time c) ≡ crc)
      × (timestamp (laid_out crc time c) ≡ time)
      × (clear_crc (laid_out crc time c) ≡ laid_out 0 time c)
unfolding laid_out packet_version crc32_value timestamp clear_crc net16 net32 overwrite
header-laid_out crc time c small young = (refl, omega arith, omega arith, refl)
