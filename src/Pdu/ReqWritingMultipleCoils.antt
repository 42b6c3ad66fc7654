-- ===== src/Pdu/ReqWritingMultipleCoils.antt =====
-- include/mothbus/pdu/req_writing_multiple_coils.h: the request of write multiple coils (0x0F).
use mothbus.Base.{ℕ, ◌≡◌, refl, List, [], ◌∷◌, ◌++◌, IsByte, IsU16, All, word, length}
use mothbus.Pdu.Codec.{Readable, Writable, Format, ReadsFormat, WritesFormat}
use mothbus.Pdu.Counted.{
  byte_items, Slots, read_counted, read_counted-Takes, read_counted-Exact, word-Takes, word-Exact,
}
use mothbus.Pdu.FunctionCode
use mothbus.Pdu.FunctionCode.{write_function_code}
use mothbus.Pdu.Reader.{Reader, Read, field, modify, resize, read_u16, read_bytes, ◌>>◌}
use mothbus.Pdu.Reader.Exact.{Exact_weaken}
use mothbus.Pdu.Writer.{Sink, Write, write_u8, write_u16, write_bytes, ◌>>◌ as ◌>>>◌}
use mothbus.Pdu.Writer.Laws.{byte-Writes, word-Writes, write_bytes-Writes}

pub record WriteMultipleCoilsPduReq : Type 0 where
  pub starting_address : ℕ
  pub quantity_of_coils : ℕ
  pub byte_count : ℕ
  pub values : List ℕ

abbrev pub empty : WriteMultipleCoilsPduReq
empty = record { starting_address = 0; quantity_of_coils = 0; byte_count = 0; values = [] }

abbrev pub put_starting_address : ℕ → WriteMultipleCoilsPduReq → WriteMultipleCoilsPduReq
put_starting_address x t = record t { starting_address = x }

abbrev pub put_quantity_of_coils : ℕ → WriteMultipleCoilsPduReq → WriteMultipleCoilsPduReq
put_quantity_of_coils x t = record t { quantity_of_coils = x }

abbrev pub slots : Slots WriteMultipleCoilsPduReq
slots = record {
  count = λ t. t.byte_count;
  put_count = λ c t. record t { byte_count = c };
  values = λ t. t.values;
  put_values = λ vs t. record t { values = vs };
  size = λ c. c;
  count-put_count = λ c t. refl;
  values-put_values = λ vs t. refl;
  put_values-put_values = λ vs us t. refl;
}

unfoldable pub read : {R : Type 0} → Reader R → Read R WriteMultipleCoilsPduReq
unfolding read_bytes resize
read rd = do
  field (λ t. t.starting_address) put_starting_address (read_u16 rd)
  field (λ t. t.quantity_of_coils) put_quantity_of_coils (read_u16 rd)
  field (λ t. t.byte_count) (λ c t. record t { byte_count = c }) rd.read_u8
  modify (λ t. record t { values = resize (t.byte_count) 0 t.values })
  field (λ t. t.values) (λ vs t. record t { values = vs }) (read_bytes rd)

unfoldable pub write : {S : Type 0} → Sink S → WriteMultipleCoilsPduReq → Write S
write sink v =
    write_function_code sink FunctionCode.write_multiple_coils
    >>> write_u16 sink v.starting_address
    >>> write_u16 sink v.quantity_of_coils
    >>> write_u8 sink v.byte_count
    >>> write_bytes sink v.values

abbrev pub readable : Readable WriteMultipleCoilsPduReq
readable = record { fc = FunctionCode.write_multiple_coils; read = λ R rd. read rd }

abbrev pub writable : Writable WriteMultipleCoilsPduReq
writable = record { write = λ S sink. write sink }

-- Behind the function code stand the words, the count and as many values as the count stands for.
abbrev pub format : Format WriteMultipleCoilsPduReq
format = record {
  fc = FunctionCode.write_multiple_coils;
  encode = λ v. word v.starting_address ++ (word v.quantity_of_coils ++ (v.byte_count ∷ v.values));
  IsValid = λ v.
      IsU16 v.starting_address
      × IsU16 v.quantity_of_coils
      × IsByte v.byte_count
      × (length v.values ≡ v.byte_count)
      × All IsByte v.values;
}

-- From any object, `read` takes the format.
pub read-ReadsFormat : (t : WriteMultipleCoilsPduReq) → ReadsFormat format readable t
unfolding read
read-ReadsFormat t = record {
  same_code = refl;
  takes = λ R rd laws v r rest valid held.
      word-Takes (λ t. t.starting_address) put_starting_address laws _ _ rest valid.0 held
        λ h0.
          word-Takes (λ t. t.quantity_of_coils) put_quantity_of_coils laws _ _ rest valid.1 h0
            λ h1.
              read_counted-Takes slots byte_items laws v.byte_count v.values _ _ rest valid.3
                valid.4 h1;
  exact = λ R rd laws.
      word-Exact (λ t. t.starting_address) put_starting_address laws _ t _
        λ a0 w0.
          word-Exact (λ t. t.quantity_of_coils) put_quantity_of_coils laws _ _ _
            λ a1 w1.
              Exact_weaken laws (read_counted slots byte_items R rd) _ _ _
                (λ t' front (c, vs, wc, same, ws, et, ef).
                  rw (et, ef) ((w0, w1, wc, same, ws), refl))
                (read_counted-Exact slots byte_items laws _);
}

pub write-WritesFormat : WritesFormat format writable
unfolding write write_function_code
write-WritesFormat = record {
  writes = λ S sink v valid. byte-Writes sink _ _ _ (
      word-Writes sink v.starting_address _ _ (
        word-Writes sink v.quantity_of_coils _ _
          (byte-Writes sink v.byte_count _ _ (write_bytes-Writes sink v.values))));
}
