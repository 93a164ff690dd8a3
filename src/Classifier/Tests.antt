-- ===== src/Classifier/Tests.antt =====
-- internal/store/classifier.go at concrete kinds.
use archive_relay.Prelude.{◌≡◌, refl, [], ◌∷◌, eq_nat, lookup}
use archive_relay.Classifier.{permanent, social, classify, classify_with_override}

classify_zap : classify 9735 ≡ permanent
unfolding classify
classify_zap = refl

override_example : classify_with_override 1 ((1, social) ∷ []) ≡ social
unfolding classify_with_override lookup
override_example = refl
