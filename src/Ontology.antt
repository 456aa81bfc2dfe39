-- ===== src/Ontology.antt =====
-- lib/dataops/ontology: the graph of the enterprise's objects, and what is checked of it.
pub mod Graph
