-- ===== src/Connector/Life/Run.antt =====
-- A connector stays sound through any events: cobra/connector.cpp.
