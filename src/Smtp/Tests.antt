-- ===== src/Smtp/Tests.antt =====
-- smtp.rs: messages without their Bcc headers.
use Prim.Native.String.{◌++◌}
use vivi_mail.Common.{◌++◌ as ◌⧺◌, String, ◌≡◌, refl}
use vivi_mail.Smtp.{strip_bcc_headers, utf8}

folded_run :
    strip_bcc_headers (utf8 "To: a\r\nBCC: b,\r\n c\r\nSubject: x\r\n\r\nBcc: kept\r\n\r\n")
    ≡ utf8 "To: a\r\nSubject: x\r\n\r\nBcc: kept\r\n\r\n"
unfolding strip_bcc_headers
folded_run = refl

-- With the Bcc header last, a blank line is left over.
last_run : strip_bcc_headers (utf8 "To: a\r\nBcc: b\r\n\r\nhi") ≡ utf8 "To: a\r\n\r\n\r\nhi"
unfolding strip_bcc_headers
last_run = refl

bare_run : strip_bcc_headers (utf8 "To: a\nBcc: b\n\nhi") ≡ utf8 "To: a\nBcc: b\n\nhi"
unfolding strip_bcc_headers
bare_run = refl
