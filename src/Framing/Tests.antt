-- ===== src/Framing/Tests.antt =====
-- Runs of the writers and readers on small messages.
use go_lab_netconf.Base.{Bytes, bytes, bytes_eq, ◌≡◌, refl, [], ◌∷◌, ◌++◌, some, arith}
use go_lab_netconf.Framing.{
  Result, ok, err, eof, unexpected_eof, too_large, invalid_frame, eom_in_message, empty_message,
  version10, version11, itoa, write, write10, write11, contains_eom, max_message_size,
}
use go_lab_netconf.Framing.Reader.{Reader, new_reader, read10, read11, read11_loop}
use go_lab_netconf.Framing.Eom.{split_eom, framed, taken, read10_lem}
use go_lab_netconf.Framing.Eom.RoundTrip.{ends_in_half, read10-write10, read10-write10_half}
use go_lab_netconf.Framing.Chunks.RoundTrip.{frame_onto, joined, read11-frame_onto, read11-write11}
use go_lab_netconf.Framing.Chunks.Bounds.{Within, read11_total}

write_both :
    (write version10 (bytes "<a/>") ≡ ok (bytes "<a/>]]>]]>"))
    × (write version11 (bytes "<hello/>") ≡ ok (bytes "\n#8\n<hello/>\n##\n"))
    × (write version10 (bytes "foo]]>]]>bar") ≡ err eom_in_message)
    × (write version11 [] ≡ err empty_message)
unfolding write contains_eom itoa
write_both = (refl, refl, refl, refl)

read10_runs :
    (read10 16 eof (bytes "<a/>]]>]]>rest") ≡ (ok (bytes "<a/>"), bytes "rest"))
    × ((read10 4 eof (bytes "abcdefgh]]>]]>")).0 ≡ err too_large)
    × ((read10 8 eof (bytes "abcdefgh]]>]]>")).0 ≡ ok (bytes "abcdefgh"))
    × ((read10 99 eof (bytes "<hello/>]]")).0 ≡ err unexpected_eof)
    × ((read10 99 eof []).0 ≡ err eof)
unfolding read10
read10_runs = (refl, refl, refl, refl, refl)

read11_runs :
    (read11 99 eof (bytes "\n#3\n<he\n#5\nllo/>\n##\nx") ≡ (ok (bytes "<hello/>"), bytes "x"))
    × ((read11 99 eof (bytes "\n#01\nX\n##\n")).0 ≡ err invalid_frame)
    × ((read11 99 eof (bytes "\n##\n")).0 ≡ err invalid_frame)
    × ((read11 8 eof (bytes "\n#20\n01234567890123456789\n##\n")).0 ≡ err too_large)
    × ((read11 99 eof (bytes "\n#4\nab")).0 ≡ err unexpected_eof)
unfolding read11
read11_runs = (refl, refl, refl, refl, refl)

hello_accepted : write10 (bytes "<a/>") ≡ ok (bytes "<a/>]]>]]>")
unfolding write10 contains_eom
hello_accepted = refl

cdata_accepted : write10 (bytes "a]]>") ≡ ok (bytes "a]]>]]>]]>")
unfolding write10 contains_eom
cdata_accepted = refl

chunk_accepted : write11 (bytes "<hello/>") ≡ ok (bytes "\n#8\n<hello/>\n##\n")
unfolding write11 itoa
chunk_accepted = refl

read10_lem_example :
    taken (read10 16 eof (bytes "<a/>]]>]]>x"))
    ≡ framed 16 eof [] (bytes "<a/>]]>]]>x") (split_eom (bytes "<a/>]]>]]>x"))
read10_lem_example = read10_lem 16 eof (bytes "<a/>]]>]]>x")

read10-write10_example :
    read10 max_message_size eof (bytes "<a/>]]>]]>" ++ bytes "x") ≡ (ok (bytes "<a/>"), bytes "x")
unfolding ends_in_half bytes_eq
read10-write10_example = read10-write10 eof (bytes "<a/>") (bytes "x") hello_accepted refl

read10-write10_half_example :
    read10 max_message_size eof (bytes "a]]>]]>]]>" ++ []) ≡ (ok (bytes "a"), bytes "]]>")
read10-write10_half_example = read10-write10_half eof (bytes "a") [] cdata_accepted

read11-frame_onto_example :
    read11 99 eof (frame_onto (bytes "<he" ∷ bytes "llo/>" ∷ []) (bytes "x"))
    ≡ (ok (bytes "<hello/>"), bytes "x")
unfolding joined
read11-frame_onto_example =
    read11-frame_onto 99 eof (omega arith) (bytes "<he" ∷ bytes "llo/>" ∷ []) (bytes "x")
      (omega arith) (λ e. cc) (omega arith)

read11-write11_example :
    read11 max_message_size eof (bytes "\n#8\n<hello/>\n##\n" ++ bytes "x")
    ≡ (ok (bytes "<hello/>"), bytes "x")
read11-write11_example = read11-write11 eof (bytes "<hello/>") (bytes "x") chunk_accepted

read11_total_example :
    (p : Result Bytes × Bytes) × (read11_loop 99 eof 5 0 [] (bytes "\n#4\n") ≡ some p)
    × (read11 99 eof (bytes "\n#4\n") ≡ p)
    × Within 99 p.0
read11_total_example = read11_total 99 eof (bytes "\n#4\n")

abbrev connection : Reader
connection = new_reader (bytes "<a/>]]>]]>") eof version10
