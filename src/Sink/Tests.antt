-- ===== src/Sink/Tests.antt =====
-- src/sink.rs: the theorems at concrete input.
use rust_streamer_pgdb.Sink.Distinct.{relative_path_inj}
use rust_streamer_pgdb.Sink.Paths.{total_length}
use rust_streamer_pgdb.Dump.Compression.{starts_with}
use rust_streamer_pgdb.Prelude.Ascii.{ends_with}
use rust_streamer_pgdb.Prelude.Text.{chars}
use rust_streamer_pgdb.Prelude.{[], ◌∷◌}
use rust_streamer_pgdb.Scan.Names.{TableName}
use rust_streamer_pgdb.Prelude.{false, ◌||◌, refl, ◌∷◌, codes, bytes_eq, Bool, some, Bytes, ◌≡◌}
use rust_streamer_pgdb.Sink.Paths.{CharClass, relative_path}
use rust_streamer_pgdb.Error.{ok}
use rust_streamer_pgdb.Prelude.Ascii.{in_range}

abbrev ascii_alphanumeric : Bytes → Bool
ascii_alphanumeric (c ∷ []) = in_range b'0' b'9' c || in_range b'A' b'Z' c || in_range b'a' b'z' c
ascii_alphanumeric _ = false

instance abbrev ascii_classes : CharClass
ascii_classes = record {
  is_alphanumeric = ascii_alphanumeric;
  is_control = λ c. bytes_eq c (codes "\n");
  alphanumeric_ascii = λ c h. refl;
}

abbrev public_users : TableName
public_users = record { schema = some (codes "public"); table = codes "users" }

accepted : relative_path public_users ≡ ok (codes "public/users")
unfolding relative_path total_length starts_with ends_with bytes_eq chars
accepted = refl

relative_path_inj_example : public_users ≡ public_users
relative_path_inj_example =
    relative_path_inj public_users public_users (codes "public/users") accepted accepted
