-- ===== src/Graph.antt =====
-- src/huntloop/graph/nodes.py: the nodes of the discovery graph, from the results of the employers to the
-- terminal row of the run.
pub mod Batch
pub mod Results
