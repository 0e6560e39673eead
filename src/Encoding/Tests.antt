-- ===== src/Encoding/Tests.antt =====
-- The round trips of src/hornetlib/encoding at concrete bytes.
use hornet.Common.{ℕ, ◌≡◌, refl, [], ◌∷◌, ◌++◌, some, true, length, arith}
use hornet.Encoding.Writer.{write_var_int}
use hornet.Encoding.Reader.{read_var_int}
use hornet.Encoding.RoundTrip.{at_end, read_var_int-write_var_int}

read_var_int-write_var_int_example :
    read_var_int 64 true (record {
      buffer = (write_var_int (at_end (7 ∷ [])) 515).buffer ++ (9 ∷ []);
      pos = length {A = ℕ} (7 ∷ []);
    })
    ≡ some (
      515,
      record {
        buffer = (write_var_int (at_end (7 ∷ [])) 515).buffer ++ (9 ∷ []);
        pos = (write_var_int (at_end (7 ∷ [])) 515).pos;
      },
    )
read_var_int-write_var_int_example =
    read_var_int-write_var_int 515 true (7 ∷ []) (9 ∷ []) (omega arith) refl (omega arith)
