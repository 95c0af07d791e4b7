-- ===== src/Search/Tests.antt =====
-- search/filters.rs: filters on concrete results.
use vivi_mail.Common.{none, some, true, false, is_whitespace, ◌≡◌, refl}
use vivi_mail.Search.{matches_sender_domain, new}

domain_run : matches_sender_domain "Ada <ada@Mail.example.com>" " @mail.example.com" ≡ true
unfolding matches_sender_domain is_whitespace
domain_run = refl

other_domain_run : matches_sender_domain "Ada <ada@example.com>" "mail.example.com" ≡ false
unfolding matches_sender_domain is_whitespace
other_domain_run = refl

no_filters_run : new none (some "  ") none ≡ none
unfolding new
no_filters_run = refl
