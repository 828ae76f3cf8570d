-- ===== src/Domain/Tests.antt =====
-- The theorem on _extract_domain at a concrete header.
use ronzz_nextcloud.Domain.{extract_domain}
use ronzz_nextcloud.Domain.Plain.{Reads, extract_domain_lem}

extract_domain_lem_example : Reads "Eve <a@b@Spam.ORG>" (extract_domain "Eve <a@b@Spam.ORG>")
extract_domain_lem_example = extract_domain_lem "Eve <a@b@Spam.ORG>"
