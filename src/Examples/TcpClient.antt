-- ===== src/Examples/TcpClient.antt =====
-- examples/tcpclient.cpp: a program that reads a register and prints it.
pub mod Hex
pub mod Prints
pub mod Unset
use mothbus.Base.{
  true, false, ℕ, ◌+◌, ◌-◌, ◌/◌, ◌%◌, Bool, ◌||◌, ◌&&◌, ltb, if◌then◌else◌, List, [], ◌∷◌, ◌++◌,
  length, replicate, Option, none, some, to_u8,
}
use mothbus.Error.{ErrorCode, failed, uninitialised}
use mothbus.Adu.Layer.{Call, returned, undefined, ◌>>=◌}
use mothbus.Adu.Master.{read_registers}
use mothbus.Adu.Stream.{StreamOps}

-- What is printed in base 16 of a number below 256: characters are their codes.
abbrev pub digit : ℕ → ℕ
digit d = if ltb d 10 then 48 + d else 97 + (d - 10)

abbrev pub digits : ℕ → List ℕ
digits v = if ltb v 16 then digit v ∷ [] else digit (v / 16) ∷ digit (v % 16) ∷ []

-- `std::setw(width) << std::setfill('0')`
abbrev pub fill : ℕ → List ℕ → List ℕ
fill width text = replicate (width - length text) 48 ++ text

-- `operator<<` for the bytes
unfoldable pub print_bytes : List ℕ → List ℕ
print_bytes [] = []
print_bytes (byte ∷ bytes) = fill 2 (digits byte) ++ print_bytes bytes

-- The options that `main` looks at, with the values they have when they are not given. `length` is read,
-- and not used.
pub record Options : Type 0 where
  pub help : Bool
  pub host : Option (List ℕ)
  pub port : ℕ
  pub length : ℕ
  pub register_address : ℕ
  pub slave : ℕ

abbrev pub default_options : Options
default_options = record {
  help = false;
  host = none;
  port = 502;
  length = 1;
  register_address = 1;
  slave = 255;
}

-- How the program ends: with the options, or with the value or the error that it got.
pub data Printed : Type 0 where
  usage : Printed
  value : List ℕ → Printed
  error : ErrorCode → Printed

abbrev pub no_host : Option (List ℕ) → Bool
no_host none = true
no_host (some h) = false

-- An element of `singleRegister` that was never set. No byte is 256.
abbrev pub no_value : ℕ
no_value = 256

abbrev pub all_set : List ℕ → Bool
all_set [] = true
all_set (byte ∷ bytes) = ltb byte 256 && all_set bytes

-- `main`, over the stream of the connection, less the lines that repeat the options. The two elements of `singleRegister` are not initialised, and
-- to print one that was not read into either is the use of a variable that was never set.
unfoldable pub main : {S : Type 0} → StreamOps S → Options → S → Call S Printed
unfolding print_bytes read_registers
main ops options s =
    if options.help || no_host options.host
    then returned usage s
    else (read_registers ops (to_u8 options.slave) options.register_address
            (no_value ∷ no_value ∷ [])
          >>= λ (ec, bytes) s'.
              if failed ec
              then returned (error ec) s'
              else if all_set bytes
              then returned (value (print_bytes bytes)) s'
              else undefined uninitialised)
        s
