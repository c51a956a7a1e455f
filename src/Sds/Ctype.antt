-- ===== src/Sds/Ctype.antt =====
-- The classes of <ctype.h> that sds.c asks for. The functions belong to the C library and depend on
-- its locale, so they are a parameter, with what the standard says of every locale.
use decompose_redis.Base.{ℕ, ◌≡◌, Bool, true, false}

pub record Ctype : Type 0 where
  pub isprint : ℕ → Bool
  pub isspace : ℕ → Bool
  pub not_print_nul : isprint 0 ≡ false
  pub space_blank : isspace b' ' ≡ true
  pub space_quote : isspace 0x22 ≡ false
