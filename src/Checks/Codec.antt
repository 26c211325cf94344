-- ===== src/Checks/Codec.antt =====
-- Lists of varbinds of firmware/components/snmp_core/snmp_codec.c, on small inputs.
use wespe.Prelude.{ℕ, ◌≡◌, arith, List, [], ◌∷◌}
use wespe.Ber.Types.{◌>>=◌, Ensures, tag_sequence}
use wespe.Ber.Decode.{expect_tag}
use wespe.Snmp.Codec.{decode_varbinds, decode_varbind_list}
use wespe.Snmp.Codec.Rounds.{Bounded, decode_varbind_list_rounds}

-- A list with one varbind, sysServices and NULL.
abbrev one_varbind : List ℕ
one_varbind = 48 ∷ 14 ∷ 48 ∷ 12 ∷ 6 ∷ 8 ∷ 43 ∷ 6 ∷ 1 ∷ 2 ∷ 1 ∷ 1 ∷ 7 ∷ 0 ∷ 5 ∷ 0 ∷ []

decode_varbind_list_rounds_example :
    (decode_varbind_list 2 50 one_varbind ≡ (
      expect_tag 2 tag_sequence one_varbind >>= λ list_seq. decode_varbinds 99 2 50 list_seq.value))
    × Ensures (Bounded 50 one_varbind) (decode_varbind_list 2 50 one_varbind)
decode_varbind_list_rounds_example = decode_varbind_list_rounds 2 50 99 one_varbind (omega arith)
