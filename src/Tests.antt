-- ===== src/Tests.antt =====
-- Runs of the code on concrete inputs: every theorem about it at one case.
mod Fixtures
mod Disk
mod StartupTest
mod LoggingTest
mod Provider
mod Server
mod MappingTest
mod CacheTest
mod ScimTest
mod OidcTest
mod PamTest
mod NssTest
mod NssLookupTest
mod ServiceTest
mod StabilityTest
mod ListingTest
mod SharedGidTest
mod GroupStabilityTest
mod GroupListingTest
mod GroupGidsTest
