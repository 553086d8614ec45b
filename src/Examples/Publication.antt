-- ===== src/Examples/Publication.antt =====
-- A document with a draft and an older version in one language.
use isms_portal.Base.{◌≡◌, refl, inl, inr, some, [], ◌∷◌, Memᴰ, arith, str_eq, find}
use isms_portal.Publication.{Version, has_id, promote_latest_to_major}
use isms_portal.Publication.Major.{promotes_latest}

abbrev older : Version
older = record {
  id = "v1";
  document_id = "d";
  locale = "fr";
  version = 1;
  version_major = 1;
  version_minor = 0;
}

abbrev draft : Version
draft = record {
  id = "v2";
  document_id = "d";
  locale = "fr";
  version = 2;
  version_major = 1;
  version_minor = 3;
}

promotes_latest_example :
    find (has_id "v2") (promote_latest_to_major "d" (older ∷ draft ∷ []))
    ≡ some (record draft { version_major = 2; version_minor = 0 })
unfolding str_eq
promotes_latest_example =
    promotes_latest "d" (older ∷ draft ∷ []) draft older (refl, (refl, tt))
      (Memᴰ.tail (Memᴰ.head refl), refl, ((λ d l. inr (ground arith)), ((λ d l. inl refl), tt)))
      (Memᴰ.head refl, refl, refl, ((λ d l. ground arith), ((λ d l. ground arith), tt)))

draft_published :
    promote_latest_to_major "d" (older ∷ draft ∷ [])
    ≡ older ∷ record draft { version_major = 2; version_minor = 0 } ∷ []
unfolding promote_latest_to_major str_eq
draft_published = refl
