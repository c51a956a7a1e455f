-- ===== src/Sds/Split/Samples.antt =====
-- The theorems on the strings that are cut, joined and compared, at concrete strings.
use decompose_redis.Base.{ℕ, ◌≡◌, ◌↔◌, ◌⊎◌, refl, List, [], ◌∷◌, take, arith}
use decompose_redis.Base.Int.{pos}
use decompose_redis.Base.Outcome.{Outcome, ok, null, fault, ◌>>=◌, Unless}
use decompose_redis.Sds.{Sds, Holds, content, sds_req_type, sds_hdr_size}
use decompose_redis.Sds.Memory.{RunsOut, memcpy, read_bytes, poke}
use decompose_redis.Sds.Samples.{plenty, hello, hello-IsValid}
use decompose_redis.Sds.Write.{sdsnewlen, newlen_type}
use decompose_redis.Sds.Split.{
  sdssplitlen, sdsjoinsds, sdscmp, split_loop, sep_at, new_token, more_slots, same_bytes,
}
use decompose_redis.Sds.Split.Join.{NotJoined, sdsjoinsds-sdssplitlen}
use decompose_redis.Sds.Split.Compare.{sdscmp-zero}

-- "a--b--", and "--".
abbrev dashed : List ℕ
dashed = b'a' ∷ b'-' ∷ b'-' ∷ b'b' ∷ b'-' ∷ b'-' ∷ 0 ∷ []

abbrev dashes : List ℕ
dashes = b'-' ∷ b'-' ∷ []

sdsjoinsds-sdssplitlen_example :
    Unless
      (((sdssplitlen plenty dashed (pos 6) dashes (pos 2) ≡ null) × RunsOut plenty)
        ⊎ NotJoined plenty (take 6 dashed))
      (Holds (take 6 dashed))
      (sdssplitlen plenty dashed (pos 6) dashes (pos 2) >>= λ ts. sdsjoinsds plenty ts dashes 2)
sdsjoinsds-sdssplitlen_example =
    sdsjoinsds-sdssplitlen plenty dashed 6 dashes 1 (omega arith) refl (omega arith) (omega arith)

sdscmp-zero_example : (sdscmp hello hello ≡ pos 0) ↔ (content hello ≡ content hello)
sdscmp-zero_example = sdscmp-zero hello hello hello-IsValid hello-IsValid

abbrev contents : List Sds → List (List ℕ)
contents [] = []
contents (t ∷ ts) = content t ∷ contents ts

abbrev cut_contents : Outcome (List Sds) → List (List ℕ)
cut_contents (ok ts) = contents ts
cut_contents null = []
cut_contents fault = []

split_dashed :
    cut_contents (sdssplitlen plenty dashed (pos 6) dashes (pos 2))
    ≡ (b'a' ∷ []) ∷ (b'b' ∷ []) ∷ [] ∷ []
unfolding sdssplitlen split_loop sep_at new_token more_slots same_bytes memcpy read_bytes poke
    sdsnewlen sds_req_type sds_hdr_size newlen_type
split_dashed = refl
