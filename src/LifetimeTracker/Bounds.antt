-- ===== src/LifetimeTracker/Bounds.antt =====
-- include/cpp_playground/testing/thread_local_lifetime_tracker.hpp: no counter overflows.
