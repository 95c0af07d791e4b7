-- ===== src/Extract/Tests.antt =====
-- extract.rs: bodies of concrete messages.
use vivi_mail.Common.{some, ok, ◌≡◌, refl, is_whitespace}
use vivi_mail.Extract.{Parsed, extract_text, html_to_text, html_stripped, full}

html_run : html_to_text "<p>Hi &amp; bye</p>\r\n\r\n<b>x</b>" ≡ "Hi &amp; bye\nx"
unfolding html_to_text
html_run = refl

abbrev blank_text : Parsed
blank_text = record { body_text = some "  "; body_html = some "<p> Hi </p>" }

extract_run :
    extract_text (λ (p : Parsed). some p) blank_text
    ≡ ok (record { body_text = "Hi"; format = html_stripped; quality = full })
unfolding extract_text is_whitespace
extract_run = refl
