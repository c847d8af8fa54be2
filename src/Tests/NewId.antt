-- ===== src/Tests/NewId.antt =====
-- Sixteen bytes, and the theorem on the ids of internal/deployment/deployment.go at them.
use remnanode_setup_bot.Base.{true, ◌≡◌, arith}
use remnanode_setup_bot.Repository.{valid_uuid_bytes}
use remnanode_setup_bot.Deployment.NewId.{RandomBytes, new_id}
use remnanode_setup_bot.Deployment.NewId.Valid.{byte_at, marks_variant, new_id-valid}

abbrev drawn : RandomBytes
drawn = record {
  b0 = 0;
  b1 = 255;
  b2 = 2;
  b3 = 3;
  b4 = 4;
  b5 = 5;
  b6 = 255;
  b7 = 7;
  b8 = 0;
  b9 = 9;
  b10 = 10;
  b11 = 11;
  b12 = 12;
  b13 = 13;
  b14 = 14;
  b15 = 128;
}

new_id_example :
    (valid_uuid_bytes (new_id drawn) ≡ true)
    × ((byte_at 14 (new_id drawn) ≡ b'4') × (marks_variant (byte_at 19 (new_id drawn)) ≡ true))
new_id_example = new_id-valid drawn (record {
  b0 = omega arith;
  b1 = omega arith;
  b2 = omega arith;
  b3 = omega arith;
  b4 = omega arith;
  b5 = omega arith;
  b6 = omega arith;
  b7 = omega arith;
  b8 = omega arith;
  b9 = omega arith;
  b10 = omega arith;
  b11 = omega arith;
  b12 = omega arith;
  b13 = omega arith;
  b14 = omega arith;
  b15 = omega arith;
})
