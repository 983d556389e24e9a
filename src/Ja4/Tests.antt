-- ===== src/Ja4/Tests.antt =====
-- A ClientHello with two ciphers and four extensions, and the same in another order.
use mtbolt.Common.{
  ◌+◌, ◌≡◌, ◌⊎◌, refl, arith, true, List, [], ◌∷◌, ◌++◌, Bytes, replicate, eq_bytes,
}
use mtbolt.Common.Parse.{ok, reject, Ensures, reject_if, read}
use mtbolt.Common.Text.{codes}
use mtbolt.Ja4.{Inputs, parse}
use mtbolt.Ja4.Fingerprint.{compute}
use mtbolt.Ja4.Print.{IsString, compute-IsString, compute-IsRearranged}
use mtbolt.Ja4.Sorting.{IsRearranged, occurrences, memcmp_le}
use mtbolt.Ja4.Insertion.{sort_strings, sort_strings-IsQsort}
use mtbolt.Ja4.Table.{TopJa4, unused, merge_slots}
use mtbolt.Ja4.Counts.{IsCounted, record_all, record_all-IsCounted, count_of}
use mtbolt.Ja4.Merge.{IsShut, merge_slots-adds}

-- up to the session's empty number
abbrev head : Bytes
head = replicate 9 0 ++ (3 ∷ 3 ∷ replicate 32 7) ++ (0 ∷ [])

abbrev server_name : Bytes
server_name = 0 ∷ 0 ∷ 0 ∷ 0 ∷ []

abbrev versions : Bytes
versions = 0 ∷ 43 ∷ 0 ∷ 3 ∷ 2 ∷ 3 ∷ 4 ∷ []

abbrev algorithms : Bytes
algorithms = 0 ∷ 13 ∷ 0 ∷ 4 ∷ 0 ∷ 2 ∷ 4 ∷ 3 ∷ []

abbrev protocols : Bytes
protocols = 0 ∷ 16 ∷ 0 ∷ 5 ∷ 0 ∷ 3 ∷ 2 ∷ 104 ∷ 50 ∷ []

abbrev hello : Bytes
hello =
    head
    ++ ((0 ∷ 4 ∷ 0x13 ∷ 0x01 ∷ 0x13 ∷ 0x02 ∷ 1 ∷ 0 ∷ 0 ∷ 28 ∷ [])
        ++ (server_name ++ (versions ++ (algorithms ++ protocols))))

abbrev shuffled : Bytes
shuffled =
    head
    ++ ((0 ∷ 4 ∷ 0x13 ∷ 0x02 ∷ 0x13 ∷ 0x01 ∷ 1 ∷ 0 ∷ 0 ∷ 28 ∷ [])
        ++ (protocols ++ (algorithms ++ (versions ++ server_name))))

-- A digest of the right length.
abbrev zero_digest : Bytes → Bytes
zero_digest s = replicate 32 0

abbrev c1301 : Bytes
c1301 = codes "1301"

abbrev c1302 : Bytes
c1302 = codes "1302"

abbrev read_of_hello : Inputs
read_of_hello = record {
  tls_ver = (49, 51);
  has_sni = true;
  ciphers = c1301 ∷ c1302 ∷ [];
  exts = codes "002b" ∷ codes "000d" ∷ [];
  ext_n = 2;
  ext_count_total = 4;
  sigalgs = codes "0403" ∷ [];
  sigalgs_n = 1;
  alpn0_first = 104;
  alpn0_last = 50;
}

parsed : parse hello 82 ≡ ok read_of_hello
unfolding parse reject_if read
parsed = refl

parsed_shuffled :
    parse shuffled 82
    ≡ ok (record read_of_hello {
      ciphers = c1302 ∷ c1301 ∷ [];
      exts = codes "000d" ∷ codes "002b" ∷ [];
    })
unfolding parse reject_if read
parsed_shuffled = refl

printed :
    compute sort_strings zero_digest hello 82 ≡ ok (codes "t13d0204h2_000000000000_000000000000")
unfolding compute sort_strings reject_if read memcmp_le
printed = refl

cut_short : compute sort_strings zero_digest hello 60 ≡ reject
unfolding compute reject_if read
cut_short = refl

compute-IsString_example : Ensures (IsString 36) (compute sort_strings zero_digest hello 82)
compute-IsString_example =
    compute-IsString sort_strings zero_digest sort_strings-IsQsort hello 82 (omega arith)

swapped : (a b : Bytes) → IsRearranged (a ∷ b ∷ []) (b ∷ a ∷ [])
unfolding occurrences
swapped a b v = ground arith

compute-IsRearranged_example :
    compute sort_strings zero_digest hello 82 ≡ compute sort_strings zero_digest shuffled 82
compute-IsRearranged_example =
    compute-IsRearranged sort_strings zero_digest sort_strings-IsQsort hello 82 shuffled 82
      read_of_hello (c1302 ∷ c1301 ∷ []) (codes "000d" ∷ codes "002b" ∷ []) (omega arith) parsed
      parsed_shuffled (swapped c1301 c1302) (swapped (codes "002b") (codes "000d"))

-- Three observations in a table of two entries, where the third finds no entry free.
abbrev seen : List Bytes
seen = codes "c" ∷ codes "b" ∷ codes "a" ∷ codes "b" ∷ []

two_kept :
    record_all seen (replicate 2 unused)
    ≡ record { hash = codes "b"; count = 2 } ∷ record { hash = codes "a"; count = 1 } ∷ []
unfolding record_all eq_bytes
two_kept = refl

record_all-IsCounted_example : IsCounted seen (record_all seen (replicate 2 unused))
record_all-IsCounted_example = record_all-IsCounted 2 seen (omega arith)

abbrev reported : List TopJa4
reported = record { hash = codes "a"; count = 5 } ∷ record { hash = codes "b"; count = 7 } ∷ []

merge_slots-adds_example :
    (count_of (codes "a") (merge_slots (reported ++ reported) [])
      ≡ count_of (codes "a") [] + count_of (codes "a") (reported ++ reported))
    ⊎ IsShut (codes "a") (merge_slots (reported ++ reported) [])
unfolding count_of eq_bytes
merge_slots-adds_example =
    merge_slots-adds (codes "a") (reported ++ reported) [] (omega arith) (omega arith)
