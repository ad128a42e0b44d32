-- ===== src/Error.antt =====
-- The exceptions of the library as values: each constructor is one `throw` of the source, named
-- after its message.
pub mod Ensures
use exio.Prelude.{◌≡◌, refl, Bool, true, false}

pub data Error : Type 0 where
  -- libexio/sam.cc, SAMProtocol::decodeMsg
  bad_sam_header exceeds_maximum_length bad_msglen missing_message_type : Error
  -- libexio/sam.cc, SAMProtocol::decode
  expected_field_value_delim no_field_value_delim no_more_for_field_delim expected_field_delim :
      Error
  -- libexio/SamBuffer.cc
  failed_to_resize msglen_not_of_expected_length headlen_not_of_expected_size : Error
  -- libexio/ReactorReadBuffer.cc
  failed_to_allocate : Error
  -- libexio/Table.cc
  row_not_found field_not_found failed_to_encode_snapshot : Error
  -- libexio/AdminInterfaceImpl.cc and libexio/AdminCommand.cc
  no_more_sessions missing_head missing_body missing_argument admin_not_found bad_command : Error
  -- A write outside of an array: undefined behaviour in the source, a fault here.
  out_of_bounds : Error
  -- A use of a pointer that is NULL, undefined as well.
  null_pointer : Error
  -- The bound on the number of steps was too small; has no counterpart in the program.
  out_of_fuel : Error

-- What a call comes to: a value, or the exception that leaves it.
pub data Result {ℓ} (A : Type ℓ) : Type ℓ where
  err : Error → Result A
  ok : A → Result A

-- An exception skips what stands behind it.
infixl 5 ◌>>=◌ ◌>>◌
abbrev pub ◌>>=◌ {ℓ ℓ'} : {V : Type ℓ} {W : Type ℓ'} → Result V → (V → Result W) → Result W
err x >>= k = err x
ok v >>= k = k v

-- `if (!b) throw x;`
abbrev pub guard : Bool → Error → Result (Unit {0})
guard b x = elim b [ false ↦ err x | true ↦ ok tt ]

abbrev pub ◌>>◌ {ℓ} : {W : Type ℓ} → Result (Unit {0}) → Result W → Result W
first >> next = first >>= λ _. next
