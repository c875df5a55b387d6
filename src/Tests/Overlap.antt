-- ===== src/Tests/Overlap.antt =====
-- Two sources whose lists share a domain.
use m_host.Common.{[], ◌∷◌, some, true, codes, ◌≡◌}
use m_host.Core.AdBlock.{AdBlockState, default_state}
use m_host.Sources.Overlap.{compute_overlap_details, compute_overlap_report}
use m_host.Sources.Overlap.Totals.{reported, compute_overlap_details-total}
use m_host.Sources.Store.{Root, cache_path}
use m_host.Tests.Addresses.{Address, test_addresses}
use m_host.Tests.Reload.{test_hasher, empty_gate, uuids}
use m_host.Tests.Sources.{test_lowercase, test_ids, source}

abbrev two_sources : AdBlockState
two_sources = record default_state {
  sources = source ∷ record source { source_id = 4 } ∷ [];
  whitelist = codes "example.org" ∷ [];
}

abbrev two_caches : Root
two_caches = record {
  files = [];
  caches =
      (cache_path 3, some (codes "0.0.0.0 ads.com"))
      ∷ (cache_path 4, some (codes "0.0.0.0 ads.com"))
      ∷ [];
  writable = true;
}

compute_overlap_details-total_example :
    (compute_overlap_details Address uuids two_sources two_caches empty_gate 4).0.total
    ≡ reported 4 (compute_overlap_report Address uuids two_sources two_caches empty_gate).0
compute_overlap_details-total_example =
    compute_overlap_details-total Address uuids two_sources two_caches empty_gate 4
