-- ===== src/Tests/DiskData.antt =====
-- A disk on which everything works, keys in a toy form of PEM, and a certificate.
use certplane.Base.{
  ◌+◌, ◌*◌, ◌≡◌, refl, ap, false, Option, none, some, [], ◌∷◌, ◌++◌, length, take, drop,
}
use certplane.Base.Text.{Text, codes}
use certplane.Clock.{hour}
use certplane.Agent.{Disk, written}
use certplane.Pki.{Certificate}
use certplane.Pki.Csr.{PemBlock}
use certplane.Pki.Key.{EcdsaKey, KeyFormats, IsKeyFormats, signer}
use certplane.Tests.Data.{today, name_a, client}

-- A disk without files on which everything works.
abbrev pub empty_disk : Disk
empty_disk = record {
  files = [];
  broken = λ path. false;
  writes = λ path. written;
  mkdir_fails = λ path. false;
  create_fails = λ path. false;
  close_fails = λ path. false;
  remove_fails = λ path. false;
}

-- PEM as the length of the type, the type and the bytes.
abbrev pub pem_encode : PemBlock → Text
pem_encode b = length b.type ∷ (b.type ++ b.bytes)

abbrev pub pem_decode : Text → Option PemBlock
pem_decode [] = none
pem_decode (n ∷ t) = some (record { type = take n t; bytes = drop n t })

abbrev pub formats : KeyFormats
formats = record {
  pem_decode = pem_decode;
  pem_encode = pem_encode;
  parse_pkcs8 = λ der. some (signer (codes "pub"));
  parse_ec = λ der. none;
  generate_p256 = some (record { public = codes "pub"; pkcs8 = some (codes "der") });
}

pub take_append : (s t : Text) → take (length s) (s ++ t) ≡ s
take_append [] t = refl
take_append (c ∷ s) t = ap (λ x. c ∷ x) (take_append s t)

pub drop_append : (s t : Text) → drop (length s) (s ++ t) ≡ t
drop_append [] t = refl
drop_append (c ∷ s) t = drop_append s t

pub formats-IsKeyFormats : IsKeyFormats formats
formats-IsKeyFormats = record {
  decode_encode = λ b. rw (take_append b.type b.bytes, drop_append b.type b.bytes) refl;
  parse_generated = λ k der h e. cc (ap (λ (x : Option EcdsaKey). x) h);
}

abbrev pub leaf : Certificate
leaf = record client {
  dns_names = name_a ∷ [];
  public_key = codes "pub";
  not_after = today + 2160 * hour;
}
