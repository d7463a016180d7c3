-- ===== src/Examples/Frames.antt =====
-- Tests of pkg/runtimeproto.
use cpak.Base.{◌≡◌, ◌++◌, arith, nat_eq, ok, Text, ascii, text_eq, int_eq}
use cpak.RuntimeProto.{write, read}
use cpak.RuntimeProto.Laws.{write-read}

write-read_example :
    (frame : Text) × (write 4 (ascii "ok") (ascii "before") ≡ ok (ascii "before" ++ frame))
    × (read (frame ++ ascii "after") ≡ ok (4, ascii "ok", ascii "after"))
write-read_example = write-read 4 (ascii "ok") (ascii "before") (ascii "after") (omega arith)
