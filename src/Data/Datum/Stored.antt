-- ===== src/Data/Datum/Stored.antt =====
-- src/data/src/datum.rs: changing who owns the bytes of a datum keeps the datum.
use incresql.Prelude.{◌≡◌, refl, ap, Bool-cases, inl, inr, leb, length, take, take-append_left}
use incresql.Data.Datum.{
  Externals, Datum, null, boolean, byte_a_ref, byte_a_owned, byte_a_inline, integer, big_int,
  decimal, jsonpath, jsonpath_ref,
}
use incresql.Data.Datum.{into_static, ref_clone}

module _ {x : Externals} where
  -- What a reader gets: text and bytes on the heap, json paths owned.
  unfoldable pub stored : Datum x → Datum x
  stored (byte_a_ref s) = byte_a_owned s
  stored (byte_a_inline len b) = byte_a_owned (take len b)
  stored (jsonpath_ref p) = jsonpath p
  stored d = d

  pub stored-ref_clone : (d : Datum x) → stored (ref_clone d) ≡ stored d
  unfolding stored ref_clone
  stored-ref_clone null = refl
  stored-ref_clone (boolean b) = refl
  stored-ref_clone (byte_a_ref s) = refl
  stored-ref_clone (byte_a_owned s) = refl
  stored-ref_clone (byte_a_inline n s) = refl
  stored-ref_clone (integer i) = refl
  stored-ref_clone (big_int i) = refl
  stored-ref_clone (decimal d) = refl
  stored-ref_clone (jsonpath p) = refl
  stored-ref_clone (jsonpath_ref p) = refl

  pub stored-into_static : (d : Datum x) → stored (into_static d) ≡ stored d
  unfolding stored into_static
  stored-into_static null = refl
  stored-into_static (boolean b) = refl
  stored-into_static (byte_a_ref s) = elim (Bool-cases (leb (length s) 22)) [
    | inl h ↦ rw h (ap byte_a_owned (take-append_left (length s) s _ refl))
    | inr h ↦ rw h refl
  ]
  stored-into_static (byte_a_owned s) = refl
  stored-into_static (byte_a_inline n s) = refl
  stored-into_static (integer i) = refl
  stored-into_static (big_int i) = refl
  stored-into_static (decimal d) = refl
  stored-into_static (jsonpath p) = refl
  stored-into_static (jsonpath_ref p) = refl

  pub stored-stored : (d : Datum x) → stored (stored d) ≡ stored d
  unfolding stored
  stored-stored null = refl
  stored-stored (boolean b) = refl
  stored-stored (byte_a_ref s) = refl
  stored-stored (byte_a_owned s) = refl
  stored-stored (byte_a_inline n s) = refl
  stored-stored (integer i) = refl
  stored-stored (big_int i) = refl
  stored-stored (decimal d) = refl
  stored-stored (jsonpath p) = refl
  stored-stored (jsonpath_ref p) = refl
